-- ===== src/Tsh/Parse/RoundTrip.antt =====
-- A command line that is written from its parts is read back as these parts.
use computer_systems_project.Base.{
  ℕ, zero, suc, ◌+◌, ◌-◌, ◌<◌, ◌≤◌, ◌≡◌, ◌≢◌, refl, ap, subst, inl, inr, Bool-cases, bytes_eq, ◌∙◌,
  Bool, true, false, not, ◌||◌, none, some, List, [], ◌∷◌, ◌++◌, arith, length, take, take_all, leb,
  ◌==◌, ==_self, length-append,
}
use computer_systems_project.Tsh.Parse.{
  max_args, max_line, is_delim, is_quote, normal, infile_next, outfile_next, Tokens, skip_delims,
  word, cons_token, quoted, closed_token, open_token, redirect, token, scan, after_scan,
  record_token, finished, parse_loop, parse_bytes, conclude, conclude_argv, background_argv,
  ends_in_amp, drop_last, builtin_of, Builtin, builtin_none, builtin_quit, builtin_jobs, builtin_bg,
  builtin_fg, parsed_fg, parsed_bg, no_tokens,
}

-- A token as it is typed: bare, or between quotes.
pub data Typed : Type 0 where
  bare : (first : ℕ) → List ℕ → Typed
  in_quotes : (quote : ℕ) → List ℕ → Typed

abbrev pub text : Typed → List ℕ
text (bare c cs) = c ∷ cs
text (in_quotes q w) = w

-- A bare token is followed by a space.
abbrev pub typed : Typed → List ℕ → List ℕ
typed (bare c cs) rest = c ∷ (cs ++ (b' ' ∷ rest))
typed (in_quotes q w) rest = q ∷ (w ++ (q ∷ rest))

abbrev pub NoDelim : List ℕ → Type 0
NoDelim [] = Unit
NoDelim (c ∷ cs) = (is_delim c ≡ false) × NoDelim cs

abbrev pub Without : ℕ → List ℕ → Type 0
Without q [] = Unit
Without q (c ∷ cs) = ((c == q) ≡ false) × Without q cs

-- A byte that starts a bare token.
abbrev pub starts : ℕ → Bool
starts c = not (is_delim c || c == b'<' || c == b'>' || is_quote c)

abbrev pub TypedValid : Typed → Type 0
TypedValid (bare c cs) = (starts c ≡ true) × NoDelim cs
TypedValid (in_quotes q w) = (is_quote q ≡ true) × Without q w

word_typed : (cs rest : List ℕ) → NoDelim cs → word (cs ++ (b' ' ∷ rest)) ≡ (cs, rest)
unfolding word
word_typed [] rest valid = refl
word_typed (c ∷ cs) rest valid = rw (valid.0, word_typed cs rest valid.1) refl

quoted_typed : (q : ℕ) (w rest : List ℕ) → Without q w → quoted q (w ++ (q ∷ rest)) ≡ some (w, rest)
unfolding quoted cons_token
quoted_typed q [] rest valid = rw (==_self q) refl
quoted_typed q (c ∷ cs) rest valid = rw (valid.0, quoted_typed q cs rest valid.1) refl

-- One round of the loop reads a token that was typed.
scan-typed :
    (w : Typed) (rest : List ℕ) (t : Tokens)
    → TypedValid w
    → scan (skip_delims (typed w rest)) t ≡ token (text w) rest
unfolding scan skip_delims open_token closed_token
scan-typed (bare c cs) rest t valid =
    let delim : is_delim c ≡ false = ground (arith, valid.0) in
    let input : (c == b'<') ≡ false = ground (arith, valid.0) in
    let output : (c == b'>') ≡ false = ground (arith, valid.0) in
    let quote : is_quote c ≡ false = ground (arith, valid.0) in
    rw (delim, input, output, quote, word_typed (c ∷ cs) rest (delim, valid.1)) refl
scan-typed (in_quotes q w) rest t valid =
    let delim : is_delim q ≡ false = ground (arith, valid.0) in
    let input : (q == b'<') ≡ false = ground (arith, valid.0) in
    let output : (q == b'>') ≡ false = ground (arith, valid.0) in
    rw (delim, input, output, valid.0, quoted_typed q w rest valid.1) refl

-- An argument, or a file that the input or the output is redirected to.
pub data Part : Type 0 where
  argument input output : Typed → Part

abbrev pub typed_part : Part → List ℕ → List ℕ
typed_part (argument w) rest = typed w rest
typed_part (input w) rest = b'<' ∷ typed w rest
typed_part (output w) rest = b'>' ∷ typed w rest

unfoldable pub command_line : List Part → List ℕ
command_line [] = []
command_line (p ∷ ps) = typed_part p (command_line ps)

abbrev pub add_part : Part → Tokens → Tokens
add_part (argument w) t = record t { argv = t.argv ++ (text w ∷ []) }
add_part (input w) t = record t { infile = some (text w) }
add_part (output w) t = record t { outfile = some (text w) }

unfoldable pub add_parts : List Part → Tokens → Tokens
add_parts [] t = t
add_parts (p ∷ ps) t = add_parts ps (add_part p t)

-- A part can follow what was read: its token is well formed, there are at most 126 arguments, and
-- neither file is given twice.
abbrev pub PartValid : Part → Tokens → Type 0
PartValid (argument w) t = TypedValid w × (length t.argv + 1 < max_args - 1)
PartValid (input w) t = TypedValid w × (t.infile ≡ none)
PartValid (output w) t = TypedValid w × (t.outfile ≡ none)

unfoldable pub PartsValid : List Part → Tokens → Type 0
PartsValid [] t = Unit
PartsValid (p ∷ ps) t = PartValid p t × PartsValid ps (add_part p t)

scan_input :
    (cs : List ℕ) (t : Tokens)
    → t.infile ≡ none
    → scan (skip_delims (b'<' ∷ cs)) t ≡ redirect infile_next cs
unfolding scan skip_delims
scan_input cs t free = rw free refl

scan_output :
    (cs : List ℕ) (t : Tokens)
    → t.outfile ≡ none
    → scan (skip_delims (b'>' ∷ cs)) t ≡ redirect outfile_next cs
unfolding scan skip_delims
scan_output cs t free = rw free refl

-- Two rounds of the loop read a part.
parse_loop-part :
    (k : ℕ) (p : Part) (rest : List ℕ) (t : Tokens)
    → PartValid p t
    → length t.argv < max_args - 1
    → (j : ℕ) × (k ≤ j)
      × (parse_loop (suc (suc k)) (typed_part p rest) normal t
          ≡ parse_loop j rest normal (add_part p t))
unfolding parse_loop after_scan record_token
parse_loop-part k (argument w) rest t valid room =
    let more : leb (max_args - 1) (length (t.argv ++ (text w ∷ []))) ≡ false =
      ground (arith, length-append t.argv (text w ∷ [])) in
    (suc k, omega arith, rw (scan-typed w rest t valid.0, more) refl)
parse_loop-part k (input w) rest t valid room =
    let more : leb (max_args - 1) (length t.argv) ≡ false = ground arith in
    (
      k,
      omega arith,
      rw (scan_input (typed w rest) t valid.1, scan-typed w rest t valid.0, more) refl,
    )
parse_loop-part k (output w) rest t valid room =
    let more : leb (max_args - 1) (length t.argv) ≡ false = ground arith in
    (
      k,
      omega arith,
      rw (scan_output (typed w rest) t valid.1, scan-typed w rest t valid.0, more) refl,
    )

length-add_part :
    (p : Part) (t : Tokens)
    → PartValid p t
    → length t.argv < max_args - 1
    → length (add_part p t).argv < max_args - 1
length-add_part (argument w) t valid room = omega (arith, length-append t.argv (text w ∷ []))
length-add_part (input w) t valid room = room
length-add_part (output w) t valid room = room

length-typed : (w : Typed) (rest : List ℕ) → length rest + 2 ≤ length (typed w rest)
length-typed (bare c cs) rest = omega (arith, length-append cs (b' ' ∷ rest))
length-typed (in_quotes q w) rest = omega (arith, length-append w (q ∷ rest))

length-typed_part : (p : Part) (rest : List ℕ) → length rest + 2 ≤ length (typed_part p rest)
length-typed_part (argument w) rest = length-typed w rest
length-typed_part (input w) rest = omega (arith, length-typed w rest)
length-typed_part (output w) rest = omega (arith, length-typed w rest)

parse_loop_empty : (k : ℕ) (t : Tokens) → parse_loop (suc k) [] normal t ≡ finished normal t
unfolding parse_loop skip_delims scan after_scan
parse_loop_empty k t = refl

-- The loop reads a command line that was written from its parts back as these parts.
pub parse_loop-command_line :
    (ps : List Part) (fuel : ℕ) (t : Tokens)
    → PartsValid ps t
    → length t.argv < max_args - 1
    → length (command_line ps) < fuel
    → parse_loop fuel (command_line ps) normal t ≡ finished normal (add_parts ps t)
unfolding command_line add_parts PartsValid
parse_loop-command_line [] zero t valid room enough = absurd (omega arith)
parse_loop-command_line [] (suc k) t valid room enough = parse_loop_empty k t
parse_loop-command_line (p ∷ ps) zero t valid room enough = absurd (omega arith)
parse_loop-command_line (p ∷ ps) (suc zero) t valid room enough =
    absurd (omega (arith, length-typed_part p (command_line ps)))
parse_loop-command_line (p ∷ ps) (suc (suc k)) t valid room enough =
    let (j, le, e) = parse_loop-part k p (command_line ps) t valid.0 room in
    e
    ∙ parse_loop-command_line ps j (add_part p t) valid.1 (length-add_part p t valid.0 room)
        (omega (arith, le, enough, length-typed_part p (command_line ps)))

-- What is kept of the parts: the arguments in order, and the two files.
abbrev pub read_back : List Part → Tokens
read_back ps = add_parts ps no_tokens

take_all_bytes : (line : List ℕ) → length line < max_line → take (max_line - 1) line ≡ line
take_all_bytes line h = take_all (max_line - 1) line (omega arith)

parse_bytes-command_line :
    (ps : List Part)
    → PartsValid ps no_tokens
    → length (command_line ps) < max_line
    → parse_bytes (command_line ps) ≡ conclude_argv (read_back ps).argv (read_back ps)
unfolding parse_bytes conclude
parse_bytes-command_line ps valid small =
    rw
      (
        take_all_bytes (command_line ps) small,
        parse_loop-command_line ps (suc (length (command_line ps))) no_tokens valid (omega arith)
            (omega arith),
      )
      refl

-- The builtin that a first argument names.
abbrev pub Names : List ℕ → Builtin → Type 0
Names w builtin_quit = w ≡ b'q' ∷ b'u' ∷ b'i' ∷ b't' ∷ []
Names w builtin_jobs = w ≡ b'j' ∷ b'o' ∷ b'b' ∷ b's' ∷ []
Names w builtin_bg = w ≡ b'b' ∷ b'g' ∷ []
Names w builtin_fg = w ≡ b'f' ∷ b'g' ∷ []
Names w builtin_none =
    (w ≢ b'q' ∷ b'u' ∷ b'i' ∷ b't' ∷ [])
    × (w ≢ b'j' ∷ b'o' ∷ b'b' ∷ b's' ∷ [])
    × (w ≢ b'b' ∷ b'g' ∷ [])
    × (w ≢ b'f' ∷ b'g' ∷ [])

bytes_eq→eq : (v w : List ℕ) → bytes_eq v w ≡ true → v ≡ w
bytes_eq→eq [] [] e = refl
bytes_eq→eq [] (b ∷ bs) e = cc
bytes_eq→eq (a ∷ v) [] e = cc
bytes_eq→eq (a ∷ v) (b ∷ bs) e =
    let here : a ≡ b = ground (arith, e) in
    let there : bytes_eq v bs ≡ true = ground (arith, e) in
    let rest = bytes_eq→eq v bs there in ap (λ t. t ∷ v) here ∙ ap (λ t. b ∷ t) rest

bytes_eq_self : (w : List ℕ) → bytes_eq w w ≡ true
bytes_eq_self [] = refl
bytes_eq_self (b ∷ bs) = rw (==_self b, bytes_eq_self bs) refl

bytes_ne : (v w : List ℕ) → bytes_eq v w ≡ false → v ≢ w
bytes_ne v w e same =
    let yes' : bytes_eq w w ≡ true = bytes_eq_self w in
    let no' : bytes_eq w w ≡ false = subst (λ t. bytes_eq t w ≡ false) same e in cc

builtin_of-Names : (w : List ℕ) → Names w (builtin_of w)
unfolding builtin_of
builtin_of-Names w = elim (Bool-cases (bytes_eq w quit)) [
  | inl e ↦ rw e (bytes_eq→eq w quit e)
  | inr n1 ↦ elim (Bool-cases (bytes_eq w jobs)) [
    | inl e ↦ rw (n1, e) (bytes_eq→eq w jobs e)
    | inr n2 ↦ elim (Bool-cases (bytes_eq w bg)) [
      | inl e ↦ rw (n1, n2, e) (bytes_eq→eq w bg e)
      | inr n3 ↦ elim (Bool-cases (bytes_eq w fg)) [
        | inl e ↦ rw (n1, n2, n3, e) (bytes_eq→eq w fg e)
        | inr n4 ↦
            rw (n1, n2, n3, n4)
              (bytes_ne w quit n1, bytes_ne w jobs n2, bytes_ne w bg n3, bytes_ne w fg n4)
      ]
    ]
  ]
]
  where
    quit : List ℕ
    quit = b'q' ∷ b'u' ∷ b'i' ∷ b't' ∷ []

    jobs : List ℕ
    jobs = b'j' ∷ b'o' ∷ b'b' ∷ b's' ∷ []

    bg : List ℕ
    bg = b'b' ∷ b'g' ∷ []

    fg : List ℕ
    fg = b'f' ∷ b'g' ∷ []

-- A line of less than 1024 bytes, written from 1 to 126 well-formed arguments, bare or in quotes, of
-- which the last does not start with `&`, and from at most one input and one output file, is parsed to
-- a foreground command with these arguments and files, and the builtin that its first argument names:
-- quit, jobs, bg or fg, or none for any other text.
pub parse_bytes_foreground :
    (ps : List Part) (w : List ℕ) (ws : List (List ℕ))
    → PartsValid ps no_tokens
    → length (command_line ps) < max_line
    → (read_back ps).argv ≡ w ∷ ws
    → ends_in_amp (w ∷ ws) ≡ false
    → (b : Builtin) × Names w b
      × (parse_bytes (command_line ps) ≡ parsed_fg (record (read_back ps) { builtin = b }))
unfolding conclude_argv
parse_bytes_foreground ps w ws valid small argv plain = (
  builtin_of w,
  builtin_of-Names w,
  parse_bytes-command_line ps valid small ∙ rw (argv, plain) refl,
)

abbrev pub ampersand : Part
ampersand = argument (bare b'&' [])

add_parts-snoc :
    (ps : List Part) (t : Tokens) (p : Part)
    → add_parts (ps ++ (p ∷ [])) t ≡ add_part p (add_parts ps t)
unfolding add_parts
add_parts-snoc [] t p = refl
add_parts-snoc (x ∷ ps) t p = add_parts-snoc ps (add_part x t) p

ends_in_amp-snoc :
    (w : List ℕ) (ws : List (List ℕ)) → ends_in_amp ((w ∷ ws) ++ ((b'&' ∷ []) ∷ [])) ≡ true
unfolding ends_in_amp
ends_in_amp-snoc w [] = refl
ends_in_amp-snoc w (v ∷ ws) = ends_in_amp-snoc v ws

drop_last-snoc :
    (w : List ℕ) (ws : List (List ℕ)) → drop_last ((w ∷ ws) ++ ((b'&' ∷ []) ∷ [])) ≡ w ∷ ws
unfolding drop_last
drop_last-snoc w [] = refl
drop_last-snoc w (v ∷ ws) = ap (λ l. w ∷ l) (drop_last-snoc v ws)

-- A line of less than 1024 bytes, written from 1 to 125 well-formed arguments, bare or in quotes, and from
-- at most one input and one output file, with `&` as one more argument behind them, is parsed to a
-- background command with these arguments and files, and the builtin that its first argument names.
pub parse_bytes_background :
    (ps : List Part) (w : List ℕ) (ws : List (List ℕ))
    → PartsValid (ps ++ (ampersand ∷ [])) no_tokens
    → length (command_line (ps ++ (ampersand ∷ []))) < max_line
    → (read_back ps).argv ≡ w ∷ ws
    → (b : Builtin) × Names w b
      × (parse_bytes (command_line (ps ++ (ampersand ∷ [])))
          ≡ parsed_bg (record (read_back ps) { builtin = b }))
unfolding conclude_argv background_argv
parse_bytes_background ps w ws valid small argv = (
  builtin_of w,
  builtin_of-Names w,
  parse_bytes-command_line (ps ++ (ampersand ∷ [])) valid small
      ∙ rw (add_parts-snoc ps no_tokens ampersand, argv, ends_in_amp-snoc w ws, drop_last-snoc w ws)
          refl,
)
