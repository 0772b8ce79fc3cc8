-- ===== src/Vm/User.antt =====
-- kernel/vm.c: the memory of a process, and copies from it. `none` is a panic.
pub mod Copyin
use osmini_project.Base.{
  ℕ, zero, suc, ◌+◌, ◌-◌, ◌*◌, ◌/◌, ◌%◌, ◌^◌, Bool, true, false, not, List, [], ◌∷◌, ◌++◌, Option,
  none, some, ◌==◌, ltb, if◌then◌else◌, update, list_of, min,
}
use osmini_project.Vm.{
  Memory, pgsize, is_valid, is_user, pte_to_pa, pte_flags, kalloc_zeroed, kfree, set_word, walk,
  walkaddr, mappages, ismapped, uvmunmap, uvmdealloc, pg_round_up, pg_round_down,
}

-- PTE_W|PTE_U|PTE_R.
abbrev pub user_data : ℕ
user_data = 22

-- `vmfault` for a process of the size `sz`: the page, or 0.
unfoldable pub vmfault : (t sz va : ℕ) → Memory → Option (ℕ × Memory)
vmfault t sz va m = elim (ltb va sz) [
  | false ↦ some (0, m)
  | true ↦ elim (ismapped t (pg_round_down va) m) [
    | none ↦ none
    | some true ↦ some (0, m)
    | some false ↦ elim (kalloc_zeroed m) [
      | none ↦ some (0, m)
      | some (pa, m1) ↦ elim (mappages t (pg_round_down va) pgsize pa user_data m1) [
        | none ↦ none
        | some (false, m2) ↦ some (0, kfree pa m2)
        | some (true, m2) ↦ some (pa, m2)
      ]
    ]
  ]
]

-- `walkaddr`, and `vmfault` if there is no page yet.
unfoldable pub page_for : (t sz va : ℕ) → Memory → Option (ℕ × Memory)
page_for t sz va m =
    let pa = walkaddr t va m in elim (pa == 0) [ true ↦ vmfault t sz va m | false ↦ some (pa, m) ]

-- `n = PGSIZE - (srcva - va0); if(n > len) n = len`.
abbrev pub part : (srcva len : ℕ) → ℕ
part srcva len = min (pgsize - srcva % pgsize) len

-- The loop of `copyin`: whether it succeeds, and the bytes it has copied.
unfoldable pub copyin_from : (rounds t sz srcva len : ℕ) → Memory → Option (Bool × List ℕ × Memory)
copyin_from zero t sz srcva len m = none
copyin_from (suc rounds) t sz srcva len m = elim (ltb 0 len) [
  | false ↦ some (true, [], m)
  | true ↦ elim (page_for t sz (pg_round_down srcva) m) [
    | none ↦ none
    | some (pa, m1) ↦ elim (pa == 0) [
      | true ↦ some (false, [], m1)
      | false ↦
          let n = part srcva len in
          elim (copyin_from rounds t sz (pg_round_down srcva + pgsize) (len - n) m1) [
            | none ↦ none
            | some (ok, bytes, m2) ↦ some (ok, list_of n (m1.byte pa) (srcva % pgsize) ++ bytes, m2)
          ]
    ]
  ]
]

unfoldable pub copyin : (t sz srcva len : ℕ) → Memory → Option (Bool × List ℕ × Memory)
copyin t sz srcva len m = copyin_from (suc len) t sz srcva len m
