-- ===== src/Tsh/Parse.antt =====
-- `parseline` of lab6-shelllab6-qinlinj/tsh_helper.c on the bytes of the command line.
--
-- The loop moves a pointer through a private copy and ends each token with a NUL. Here a token is
-- the list of its bytes, and the pointer is the rest of the line after the byte that was overwritten.
pub mod Bounds
pub mod RoundTrip
use computer_systems_project.Base.{
  ℕ, zero, suc, ◌+◌, ◌-◌, Bool, true, false, ◌&&◌, ◌||◌, Option, none, some, List, [], ◌∷◌, ◌++◌,
  length, take, leb, ◌==◌, if◌then◌else◌, bytes_eq,
}

abbrev pub max_line : ℕ
max_line = 1024

abbrev pub max_args : ℕ
max_args = 128

-- ` \t\r\n`
abbrev pub is_delim : ℕ → Bool
is_delim c = c == 32 || c == 9 || c == 13 || c == 10

pub data ParsingState : Type 0 where
  normal infile_next outfile_next : ParsingState

pub data Builtin : Type 0 where
  builtin_none builtin_quit builtin_jobs builtin_bg builtin_fg : Builtin

-- `struct cmdline_tokens`: `argc` is the length of `argv`.
pub record Tokens : Type 0 where
  pub argv : List (List ℕ)
  pub infile : Option (List ℕ)
  pub outfile : Option (List ℕ)
  pub builtin : Builtin

pub data ParseResult : Type 0 where
  parsed_fg : Tokens → ParseResult
  parsed_bg : Tokens → ParseResult
  parsed_empty : ParseResult
  parse_error : ParseResult

-- `buf += strspn(buf, delims)`
pub skip_delims : List ℕ → List ℕ
skip_delims [] = []
skip_delims (c ∷ cs) = let rest = skip_delims cs in if is_delim c then rest else c ∷ cs

-- `next = buf + strcspn(buf, delims)`: the token, and what follows the delimiter.
pub word : List ℕ → List ℕ × List ℕ
word [] = ([], [])
word (c ∷ cs) = let (w, rest) = word cs in if is_delim c then ([], cs) else (c ∷ w, rest)

-- `next = strchr(buf, quote)`
pub cons_token : ℕ → Option (List ℕ × List ℕ) → Option (List ℕ × List ℕ)
cons_token c none = none
cons_token c (some (w, rest)) = some (c ∷ w, rest)

pub quoted : (quote : ℕ) → List ℕ → Option (List ℕ × List ℕ)
quoted quote [] = none
quoted quote (c ∷ cs) =
    let found = cons_token c (quoted quote cs) in if c == quote then some ([], cs) else found

abbrev pub is_set : Option (List ℕ) → Bool
is_set none = false
is_set (some _) = true

-- What one round of the loop finds: the end of the line, an error, a redirection, or a token with the
-- rest of the line.
pub data Scanned : Type 0 where
  line_end unmatched ambiguous : Scanned
  redirect : ParsingState → List ℕ → Scanned
  token : List ℕ → List ℕ → Scanned

pub closed_token : Option (List ℕ × List ℕ) → Scanned
closed_token none = unmatched
closed_token (some (w, rest)) = token w rest

pub open_token : List ℕ × List ℕ → Scanned
open_token (w, rest) = token w rest

abbrev pub is_quote : ℕ → Bool
is_quote c = c == b'\'' || c == b'"'

pub scan : List ℕ → Tokens → Scanned
scan [] t = line_end
scan (c ∷ cs) t =
    if c == b'<'
    then (if is_set t.infile then ambiguous else redirect infile_next cs)
    else if c == b'>'
    then (if is_set t.outfile then ambiguous else redirect outfile_next cs)
    else if is_quote c
    then closed_token (quoted c cs)
    else open_token (word (c ∷ cs))

pub record_token : ParsingState → List ℕ → Tokens → Tokens
record_token normal w t = record t { argv = t.argv ++ (w ∷ []) }
record_token infile_next w t = record t { infile = some w }
record_token outfile_next w t = record t { outfile = some w }

-- How the loop over the line ends.
pub data LoopEnd : Type 0 where
  error : LoopEnd
  finished : ParsingState → Tokens → LoopEnd
  out_of_fuel : LoopEnd

-- The rest of a round, and the next one.
pub after_scan :
    (again : List ℕ → ParsingState → Tokens → LoopEnd) → ParsingState → Tokens → Scanned → LoopEnd
after_scan again state t line_end = finished state t
after_scan again state t unmatched = error
after_scan again state t ambiguous = error
after_scan again state t (redirect next rest) = again rest next t
after_scan again state t (token w rest) =
    let t' = record_token state w t in
    let next = again rest normal t' in
    if leb (max_args - 1) (length t'.argv) then finished normal t' else next

pub parse_loop : (fuel : ℕ) → List ℕ → ParsingState → Tokens → LoopEnd
parse_loop zero buf state t = out_of_fuel
parse_loop (suc k) buf state t = after_scan (parse_loop k) state t (scan (skip_delims buf) t)

abbrev quit_text : List ℕ
quit_text = b'q' ∷ b'u' ∷ b'i' ∷ b't' ∷ []

abbrev jobs_text : List ℕ
jobs_text = b'j' ∷ b'o' ∷ b'b' ∷ b's' ∷ []

abbrev bg_text : List ℕ
bg_text = b'b' ∷ b'g' ∷ []

abbrev fg_text : List ℕ
fg_text = b'f' ∷ b'g' ∷ []

pub builtin_of : List ℕ → Builtin
builtin_of w =
    if bytes_eq w quit_text
    then builtin_quit
    else if bytes_eq w jobs_text
    then builtin_jobs
    else if bytes_eq w bg_text
    then builtin_bg
    else if bytes_eq w fg_text
    then builtin_fg
    else builtin_none

-- `*argv[argc - 1] == '&'` and `argv[--argc] = NULL`.
unfoldable pub ends_in_amp : List (List ℕ) → Bool
ends_in_amp [] = false
ends_in_amp ([] ∷ []) = false
ends_in_amp ((c ∷ w) ∷ []) = c == b'&'
ends_in_amp (w ∷ v ∷ ws) = ends_in_amp (v ∷ ws)

pub drop_last : List (List ℕ) → List (List ℕ)
drop_last [] = []
drop_last (w ∷ []) = []
drop_last (w ∷ v ∷ ws) = w ∷ drop_last (v ∷ ws)

-- What follows the loop.
pub background_argv : (kept : List (List ℕ)) → Tokens → ParseResult
background_argv [] t = parsed_empty
background_argv (w ∷ ws) t = parsed_bg (record t { argv = w ∷ ws })

pub conclude_argv : List (List ℕ) → Tokens → ParseResult
conclude_argv [] t = parsed_empty
conclude_argv (w ∷ ws) t =
    let t' = record t { argv = w ∷ ws; builtin = builtin_of w } in
    if ends_in_amp (w ∷ ws) then background_argv (drop_last (w ∷ ws)) t' else parsed_fg t'

pub conclude : LoopEnd → ParseResult
conclude error = parse_error
conclude out_of_fuel = parse_error
conclude (finished infile_next t) = parse_error
conclude (finished outfile_next t) = parse_error
conclude (finished normal t) = conclude_argv t.argv t

abbrev pub no_tokens : Tokens
no_tokens = record { argv = []; infile = none; outfile = none; builtin = builtin_none }

-- `strncpy` keeps the first 1023 bytes. Every round of the loop takes a byte.
pub parse_bytes : List ℕ → ParseResult
parse_bytes line =
    let buf = take (max_line - 1) line in
    conclude (parse_loop (suc (length buf)) buf normal no_tokens)

pub parseline : Option (List ℕ) → ParseResult
parseline none = parsed_empty
parseline (some line) = parse_bytes line
