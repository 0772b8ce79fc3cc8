-- ===== src/Vm/User/Copyin.antt =====
-- kernel/vm.c: `copyin` gives the bytes of the process.
use osmini_project.Base.{
  ℕ, zero, suc, ◌+◌, ◌-◌, ◌%◌, ◌≤◌, ◌<◌, ◌≡◌, ◌≢◌, sym, ap, ◌∙◌, true, false, List, ◌++◌, ◌==◌,
  arith, some, ltb, dec_lt, list_of, list_of-agree, list_of-append,
}
use osmini_project.Vm.{Memory, pgsize, walkaddr, pg_round_down}
use osmini_project.Vm.User.{page_for, part, copyin_from, copyin}

-- The byte of the process at an address.
abbrev pub user_byte : Memory → (t a : ℕ) → ℕ
user_byte m t a = m.byte (walkaddr t (pg_round_down a) m) (a % pgsize)

-- There is a page at every address from `a` to `b`.
abbrev pub IsPresent : Memory → (t a b : ℕ) → Type 0
IsPresent m t a b = (c : ℕ) → a ≤ c → c < b → walkaddr t (pg_round_down c) m ≢ 0

module _ (t sz : ℕ) (m : Memory) where
  page_present : (va : ℕ) → walkaddr t va m ≢ 0 → page_for t sz va m ≡ some (walkaddr t va m, m)
  unfolding page_for
  page_present va ne =
      let there : (walkaddr t va m == 0) ≡ false = ground arith in rw (there, page_for)

  copyin_round :
      (rounds srcva len pa : ℕ) (bytes : List ℕ)
      → 0 < len
      → page_for t sz (pg_round_down srcva) m ≡ some (pa, m)
      → pa ≢ 0
      → copyin_from rounds t sz (pg_round_down srcva + pgsize) (len - part srcva len) m
        ≡ some (true, bytes, m)
      → copyin_from (suc rounds) t sz srcva len m
        ≡ some (true, list_of (part srcva len) (m.byte pa) (srcva % pgsize) ++ bytes, m)
  unfolding copyin_from
  copyin_round rounds srcva len pa bytes lt e ne e' =
      let going : ltb 0 len ≡ true = ground arith in
      let there : (pa == 0) ≡ false = ground arith in rw (going, e, there, e', copyin_from)

  -- The bytes of one page.
  page_bytes :
      (srcva len : ℕ)
      → list_of (part srcva len) (m.byte (walkaddr t (pg_round_down srcva) m)) (srcva % pgsize)
        ≡ list_of (part srcva len) (user_byte m t) srcva
  page_bytes srcva len =
      list_of-agree (part srcva len) (m.byte (walkaddr t (pg_round_down srcva) m)) (user_byte m t)
        (srcva % pgsize) srcva
        (λ j lt.
          let page : pg_round_down (srcva + j) ≡ pg_round_down srcva = omega arith in
          let place : (srcva + j) % pgsize ≡ srcva % pgsize + j = omega arith in
          ap (m.byte (walkaddr t (pg_round_down srcva) m)) (sym place)
          ∙ ap (λ p. m.byte (walkaddr t p m) ((srcva + j) % pgsize)) (sym page))

  -- The pages to come: nothing is left, or the copy goes on at the start of a page.
  next-IsPresent :
      (srcva len : ℕ)
      → IsPresent m t srcva (srcva + len)
      → IsPresent m t
          (pg_round_down srcva + pgsize)
          (pg_round_down srcva + pgsize + (len - part srcva len))
  next-IsPresent srcva len present c from lt = present c (omega arith) (omega arith)

  joined :
      (srcva len : ℕ)
      → list_of (part srcva len) (user_byte m t) srcva
          ++ list_of (len - part srcva len) (user_byte m t) (pg_round_down srcva + pgsize)
        ≡ list_of len (user_byte m t) srcva
  joined srcva len =
      let rest = len - part srcva len in
      let second : list_of rest (user_byte m t) (pg_round_down srcva + pgsize)
          ≡ list_of rest (user_byte m t) (srcva + part srcva len) =
        elim (dec_lt (part srcva len) len) [
          | yes more ↦
              let place : pg_round_down srcva + pgsize ≡ srcva + part srcva len = omega arith in
              ap (list_of rest (user_byte m t)) place
          | no last ↦ let nothing : len - part srcva len ≡ 0 = omega arith in rw nothing
        ] in
      let whole : part srcva len + (len - part srcva len) ≡ len = omega arith in
      ap (λ l. list_of (part srcva len) (user_byte m t) srcva ++ l) second
      ∙ sym (list_of-append (part srcva len) rest (user_byte m t) srcva)
      ∙ ap (λ n. list_of n (user_byte m t) srcva) whole

  copyin_from_present :
      (rounds srcva len : ℕ)
      → len < rounds
      → IsPresent m t srcva (srcva + len)
      → copyin_from rounds t sz srcva len m ≡ some (true, list_of len (user_byte m t) srcva, m)
  unfolding copyin_from
  copyin_from_present zero srcva len enough present = absurd (omega arith)
  copyin_from_present (suc rounds) srcva len enough present = elim (dec_lt 0 len) [
    | no stop ↦ let nothing : len ≡ 0 = omega arith in rw nothing
    | yes lt ↦
        let here = present srcva (omega arith) (omega arith) in
        copyin_round rounds srcva len (walkaddr t (pg_round_down srcva) m)
          (list_of (len - part srcva len) (user_byte m t) (pg_round_down srcva + pgsize)) lt
          (page_present (pg_round_down srcva) here) here
          (copyin_from_present rounds (pg_round_down srcva + pgsize) (len - part srcva len)
            (omega arith) (next-IsPresent srcva len present))
        ∙ ap (λ l. some (true, l, m))
            (ap
                (λ l.
                  l
                  ++ list_of (len - part srcva len) (user_byte m t) (pg_round_down srcva + pgsize))
                (page_bytes srcva len)
              ∙ joined srcva len)
  ]

  -- Where every page is there, `copyin` gives the bytes, and changes nothing.
  pub copyin_lem :
      (srcva len : ℕ)
      → IsPresent m t srcva (srcva + len)
      → copyin t sz srcva len m ≡ some (true, list_of len (user_byte m t) srcva, m)
  unfolding copyin
  copyin_lem srcva len present = copyin_from_present (suc len) srcva len (omega arith) present
