-- ===== src/Tsh/Parse/Bounds.antt =====
-- `parseline` of tsh_helper.c ends, and its vector of arguments has room for the NULL at its end.
use computer_systems_project.Base.{
  ℕ, zero, suc, ◌+◌, ◌-◌, ◌<◌, ◌≤◌, ◌≡◌, ◌≢◌, subst, false, inl, inr, Option, none, some, List, [],
  ◌∷◌, arith, length, take, leb, ◌==◌, Bool-cases, length-append,
}
use computer_systems_project.Tsh.Parse.{
  max_args, max_line, is_delim, is_quote, ParsingState, normal, infile_next, outfile_next, Tokens,
  skip_delims, word, cons_token, quoted, closed_token, open_token, Scanned, line_end, unmatched,
  ambiguous, redirect, token, scan, after_scan, record_token, LoopEnd, error, finished, out_of_fuel,
  is_set, parse_loop, parse_bytes, no_tokens, ParseResult, parsed_fg, parsed_bg, parsed_empty,
  parse_error, ends_in_amp, drop_last, background_argv, conclude_argv, conclude,
}

length-skip_delims : (cs : List ℕ) → length (skip_delims cs) ≤ length cs
unfolding skip_delims
length-skip_delims [] = omega arith
length-skip_delims (c ∷ cs) = ground (arith, length-skip_delims cs)

length-word : (cs : List ℕ) → length (word cs).1 ≤ length cs
unfolding word
length-word [] = omega arith
length-word (c ∷ cs) = elim (Bool-cases (is_delim c)) [
  | inl delim ↦ rw delim (omega arith)
  | inr other ↦ rw other (omega (arith, length-word cs))
]

length-word_cons : (c : ℕ) (cs : List ℕ) → length (word (c ∷ cs)).1 ≤ length cs
unfolding word
length-word_cons c cs = elim (Bool-cases (is_delim c)) [
  | inl delim ↦ rw delim (omega arith)
  | inr other ↦ rw other (length-word cs)
]

-- The rest of the line is shorter than `n`.
abbrev Shorter : ℕ → Scanned → Type 0
Shorter n line_end = Unit
Shorter n unmatched = Unit
Shorter n ambiguous = Unit
Shorter n (redirect next rest) = length rest < n
Shorter n (token w rest) = length rest < n

closed_token-Shorter :
    (c : ℕ) (n : ℕ) (o : Option (List ℕ × List ℕ))
    → Shorter n (closed_token o)
    → Shorter (suc n) (closed_token (cons_token c o))
unfolding closed_token cons_token
closed_token-Shorter c n none h = tt
closed_token-Shorter c n (some (w, rest)) h = omega arith

quoted-Shorter : (q : ℕ) (cs : List ℕ) → Shorter (suc (length cs)) (closed_token (quoted q cs))
unfolding quoted closed_token
quoted-Shorter q [] = tt
quoted-Shorter q (c ∷ cs) = elim (Bool-cases (c == q)) [
  | inl end ↦ rw end (omega arith)
  | inr other ↦
      rw other (closed_token-Shorter c (suc (length cs)) (quoted q cs) (quoted-Shorter q cs))
]

scan-Shorter : (cs : List ℕ) (t : Tokens) → Shorter (length cs) (scan cs t)
unfolding scan open_token
scan-Shorter [] t = tt
scan-Shorter (c ∷ cs) t = elim (Bool-cases (c == b'<')) [
  | inl input ↦ rw input (elim (Bool-cases (is_set t.infile)) [
    | inl twice ↦ rw twice tt
    | inr once ↦ rw once (omega arith)
  ])
  | inr no_input ↦ elim (Bool-cases (c == b'>')) [
    | inl output ↦
        rw (no_input, output)
          (elim (Bool-cases (is_set t.outfile)) [
            | inl twice ↦ rw twice tt
            | inr once ↦ rw once (omega arith)
          ])
    | inr no_output ↦ elim (Bool-cases (is_quote c)) [
      | inl quote ↦ rw (no_input, no_output, quote) (quoted-Shorter c cs)
      | inr plain ↦ rw (no_input, no_output, plain) (omega (arith, length-word_cons c cs))
    ]
  ]
]

-- The vector of arguments and its NULL fit in `max_args` pointers.
abbrev pub Sound : LoopEnd → Type 0
Sound error = Unit
Sound (finished state t) = length t.argv < max_args
Sound out_of_fuel = ⊥

length-record_token :
    (state : ParsingState) (w : List ℕ) (t : Tokens)
    → length (record_token state w t).argv ≤ length t.argv + 1
unfolding record_token
length-record_token normal w t = omega (arith, length-append t.argv (w ∷ []))
length-record_token infile_next w t = omega arith
length-record_token outfile_next w t = omega arith

after_scan-Sound :
    (n : ℕ) (again : List ℕ → ParsingState → Tokens → LoopEnd)
    → ((rest : List ℕ) (next : ParsingState) (t : Tokens)
        → length rest < n
        → length t.argv < max_args - 1
        → Sound (again rest next t))
    → (state : ParsingState) (t : Tokens) → length t.argv < max_args - 1
    → (found : Scanned) → Shorter n found
    → Sound (after_scan again state t found)
unfolding after_scan
after_scan-Sound n again sound state t room line_end h = omega arith
after_scan-Sound n again sound state t room unmatched h = tt
after_scan-Sound n again sound state t room ambiguous h = tt
after_scan-Sound n again sound state t room (redirect next rest) h = sound rest next t h room
after_scan-Sound n again sound state t room (token w rest) h =
    elim (Bool-cases (leb (max_args - 1) (length (record_token state w t).argv))) [
      | inl full ↦ rw full (omega (arith, length-record_token state w t))
      | inr more ↦ rw more (sound rest normal (record_token state w t) h (below more))
    ]
  where
    below : {n : ℕ} → leb (max_args - 1) n ≡ false → n < max_args - 1
    below h = ground arith

-- With more fuel than the line has bytes the loop ends.
pub parse_loop-Sound :
    (fuel : ℕ) (buf : List ℕ) (state : ParsingState) (t : Tokens)
    → length buf < fuel
    → length t.argv < max_args - 1
    → Sound (parse_loop fuel buf state t)
unfolding parse_loop
parse_loop-Sound zero buf state t enough room = absurd (omega arith)
parse_loop-Sound (suc k) buf state t enough room =
    after_scan-Sound (length (skip_delims buf)) (parse_loop k)
      (λ rest next t' h room'.
        parse_loop-Sound k rest next t' (omega (arith, length-skip_delims buf)) room')
      state t room (scan (skip_delims buf) t) (scan-Shorter (skip_delims buf) t)

-- The vector of arguments of a command: not empty, and with room for the NULL at its end.
abbrev pub GoodArgv : ParseResult → Type 0
GoodArgv (parsed_fg t) = (0 < length t.argv) × (length t.argv < max_args)
GoodArgv (parsed_bg t) = (0 < length t.argv) × (length t.argv < max_args)
GoodArgv parsed_empty = Unit
GoodArgv parse_error = Unit

length-drop_last : (ws : List (List ℕ)) → length (drop_last ws) ≤ length ws
unfolding drop_last
length-drop_last [] = omega arith
length-drop_last (w ∷ []) = omega arith
length-drop_last (w ∷ v ∷ ws) = omega (arith, length-drop_last (v ∷ ws))

background-GoodArgv :
    (t : Tokens) (kept : List (List ℕ)) → length kept < max_args → GoodArgv (background_argv kept t)
unfolding background_argv
background-GoodArgv t [] h = tt
background-GoodArgv t (w ∷ ws) h = (omega arith, h)

conclude_argv-GoodArgv :
    (argv : List (List ℕ)) (t : Tokens) → length argv < max_args → GoodArgv (conclude_argv argv t)
unfolding conclude_argv
conclude_argv-GoodArgv [] t h = tt
conclude_argv-GoodArgv (w ∷ ws) t h = elim (Bool-cases (ends_in_amp (w ∷ ws))) [
  | inl amp ↦
      rw amp (background-GoodArgv _ (drop_last (w ∷ ws)) (omega (arith, length-drop_last (w ∷ ws))))
  | inr plain ↦ rw plain (omega arith, h)
]

conclude-GoodArgv : (end : LoopEnd) → Sound end → GoodArgv (conclude end)
unfolding conclude
conclude-GoodArgv error h = tt
conclude-GoodArgv out_of_fuel h = tt
conclude-GoodArgv (finished infile_next t) h = tt
conclude-GoodArgv (finished outfile_next t) h = tt
conclude-GoodArgv (finished normal t) h = conclude_argv-GoodArgv t.argv t h

-- The loop of `parseline` ends on every line: one round for each byte and one more are enough.
pub parse_loop_enough :
    (line : List ℕ)
    → parse_loop
        (suc (length (take (max_line - 1) line)))
        (take (max_line - 1) line)
        normal
        no_tokens
      ≢ out_of_fuel
parse_loop_enough line e =
    subst Sound e
      (parse_loop-Sound _ (take (max_line - 1) line) normal no_tokens (omega arith) (omega arith))

-- A command that `parseline` returns has at least one argument and at most 127, so that `argv` has
-- room for the NULL at its end.
pub parse_bytes-GoodArgv : (line : List ℕ) → GoodArgv (parse_bytes line)
unfolding parse_bytes
parse_bytes-GoodArgv line =
    conclude-GoodArgv _
      (parse_loop-Sound _ (take (max_line - 1) line) normal no_tokens (omega arith) (omega arith))
