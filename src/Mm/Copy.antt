-- ===== src/Mm/Copy.antt =====
-- `memcpy` and `memset` with 0, as lab5-malloclab5-qinlinj/mm.c uses them.
use computer_systems_project.Base.{ℕ, zero, suc, ◌+◌, ◌-◌, ◌*◌, ◌/◌, ◌%◌, ◌^◌}
use computer_systems_project.Mm.{Memory, wsize, store}

-- What `memcpy` and `memset` with 0 write, by words: `n` whole words, and the first `r` bytes of a word.
unfoldable pub copy_words : (n dst src : ℕ) → Memory → Memory
copy_words zero dst src mem = mem
copy_words (suc n) dst src mem = copy_words n (dst + wsize) (src + wsize) (store mem dst (mem src))

unfoldable pub copy_bytes : (r dst src : ℕ) → Memory → Memory
copy_bytes r dst src mem = store mem dst (mem dst - mem dst % 2 ^ (8 * r) + mem src % 2 ^ (8 * r))

unfoldable pub memcpy : (dst src n : ℕ) → Memory → Memory
memcpy dst src n mem =
    let whole = n / wsize * wsize in
    copy_bytes (n % wsize) (dst + whole) (src + whole) (copy_words (n / wsize) dst src mem)

unfoldable pub clear_words : (n dst : ℕ) → Memory → Memory
clear_words zero dst mem = mem
clear_words (suc n) dst mem = clear_words n (dst + wsize) (store mem dst 0)

unfoldable pub clear_bytes : (r dst : ℕ) → Memory → Memory
clear_bytes r dst mem = store mem dst (mem dst - mem dst % 2 ^ (8 * r))

unfoldable pub memset_zero : (dst n : ℕ) → Memory → Memory
memset_zero dst n mem =
    clear_bytes (n % wsize) (dst + n / wsize * wsize) (clear_words (n / wsize) dst mem)
