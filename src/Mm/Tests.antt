-- ===== src/Mm/Tests.antt =====
-- Header words and blocks at concrete inputs.
use computer_systems_project.Base.{
  ℕ, ◌≡◌, ◌≢◌, refl, true, false, [], ◌∷◌, ◌==◌, if◌then◌else◌, arith,
}
use computer_systems_project.Mm.{
  Memory, find_seg_list_class, write_block, class_loop, extract_size, get_size,
}
use computer_systems_project.Mm.Lists.{Heap, insert_block_lifo, fix_free_list}
use computer_systems_project.Mm.Lists.Chain.{Linked}
use computer_systems_project.Mm.Lists.Insert.{insert_block_lifo-Linked}
use computer_systems_project.Mm.Lists.Remove.{Unlinked, fix_free_list-Unlinked}
use computer_systems_project.Mm.Memory.{Written, write_block-Written}

abbrev zeros : Memory
zeros x = 0

write_block-Written_example :
    Written zeros (write_block 64 48 false true false true zeros) 64 48 false true false
write_block-Written_example = write_block-Written zeros 64 48 false true false refl (omega arith)

-- Three free blocks of 48 bytes, of which the last two are in the list.
abbrev three_blocks : Memory
three_blocks x =
    if x == 24
    then 48
    else if x == 120
    then 48
    else if x == 216
    then 48
    else if x == 128
    then 216
    else if x == 232
    then 120
    else 0

abbrev two_listed : Heap
two_listed = record { mem = three_blocks; seg_list = λ c. if c == 2 then 120 else 0 }

insert_block_lifo-Linked_example :
    Linked (get_size three_blocks 24) (insert_block_lifo 24 two_listed) (24 ∷ 120 ∷ 216 ∷ [])
    × ((k : ℕ)
        → k ≢ find_seg_list_class (get_size three_blocks 24)
        → (insert_block_lifo 24 two_listed).seg_list k ≡ two_listed.seg_list k)
unfolding get_size extract_size find_seg_list_class class_loop
insert_block_lifo-Linked_example =
    insert_block_lifo-Linked two_listed 24 (120 ∷ 216 ∷ []) refl
      ((λ e. omega arith), ((λ e. omega arith), tt)) (((λ e. omega arith), tt), (tt, tt))
      (refl, (refl, refl, (λ e. refl), (refl, refl, (λ e. refl), tt)))

-- Three free blocks of 16 bytes in their list.
abbrev small_blocks : Memory
small_blocks x =
    if x == 24
    then 16
    else if x == 72
    then 16
    else if x == 120
    then 16
    else if x == 32
    then 72
    else if x == 80
    then 120
    else 0

abbrev small_listed : Heap
small_listed = record { mem = small_blocks; seg_list = λ c. if c == 0 then 24 else 0 }

fix_free_list-Unlinked_example :
    Unlinked 16 small_listed (fix_free_list 4 72 small_listed) (24 ∷ 120 ∷ [])
unfolding get_size extract_size find_seg_list_class
fix_free_list-Unlinked_example =
    fix_free_list-Unlinked small_listed 4 72 (24 ∷ []) (120 ∷ []) refl (omega arith)
      (((λ e. omega arith), ((λ e. omega arith), tt)), (((λ e. omega arith), tt), (tt, tt)))
      (refl, (refl, refl, (λ e. cc), (refl, refl, (λ e. cc), (refl, refl, (λ e. cc), tt))))
