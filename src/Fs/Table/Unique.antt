-- ===== src/Fs/Table/Unique.antt =====
-- kernel/fs.c: an inode stands in the table at one entry at most.
use osmini_project.Base.{
  ℕ, ◌<◌, ◌≡◌, ◌≢◌, inl, inr, sym, ap, ◌∙◌, true, false, arith, Option, some, some-injective,
  ℕ_discrete, subst, update, update_self, update_ne, Bool-cases,
}
use osmini_project.Fs.{Inode}
use osmini_project.Fs.Table.{State, ninode, with_inode, is_entry, add_ref, iget}
use osmini_project.Fs.Table.Get.{Iget, hit, free, full, iget-Iget, fresh}

unfoldable pub IsTable : State → Type 0
IsTable k =
    (dev inum i j : ℕ)
    → i < ninode
    → j < ninode
    → is_entry dev inum (k.inode i) ≡ true
    → is_entry dev inum (k.inode j) ≡ true
    → i ≡ j

-- An entry is changed, and was the only one of the inode that it is of now.
with_inode-IsTable :
    (k : State) (i : ℕ) (ip : Inode)
    → IsTable k
    → ((dev inum j : ℕ)
        → j < ninode
        → j ≢ i
        → is_entry dev inum ip ≡ true
        → is_entry dev inum (k.inode j) ≡ false)
    → IsTable (with_inode i ip k)
unfolding IsTable
with_inode-IsTable k i ip table alone dev inum a b lt lt' e e' = elim (ℕ_discrete a i) [
  | yes same ↦ elim (ℕ_discrete b i) [
    | yes same' ↦ same ∙ sym same'
    | no other' ↦
        let mine : is_entry dev inum ip ≡ true =
          sym (ap (is_entry dev inum) (ap (update k.inode i ip) same ∙ update_self k.inode i ip))
          ∙ e in
        let theirs = sym (ap (is_entry dev inum) (update_ne k.inode i ip b other')) ∙ e' in
        let none_there = alone dev inum b lt' other' mine in cc
  ]
  | no other ↦
      let theirs : is_entry dev inum (k.inode a) ≡ true =
        sym (ap (is_entry dev inum) (update_ne k.inode i ip a other)) ∙ e in
      elim (ℕ_discrete b i) [
        | yes same' ↦
            let mine : is_entry dev inum ip ≡ true =
              sym
                (ap (is_entry dev inum) (ap (update k.inode i ip) same' ∙ update_self k.inode i ip))
              ∙ e' in
            let none_there = alone dev inum a lt other mine in cc
        | no other' ↦
            table dev inum a b lt lt' theirs
              (sym (ap (is_entry dev inum) (update_ne k.inode i ip b other')) ∙ e')
      ]
]

-- The entry is of the same inode as before, if of any.
same-IsTable :
    (k : State) (i : ℕ) (ip : Inode)
    → i < ninode
    → IsTable k
    → ((dev inum : ℕ) → is_entry dev inum ip ≡ true → is_entry dev inum (k.inode i) ≡ true)
    → IsTable (with_inode i ip k)
unfolding IsTable
same-IsTable k i ip lt table same = with_inode-IsTable k i ip table (λ dev inum j lt' ne e.
    elim (Bool-cases (is_entry dev inum (k.inode j))) [
      | inr other ↦ other
      | inl there ↦ absurd (ne (table dev inum j i lt' lt there (same dev inum e)))
    ])

pub is_entry_ids :
    {dev inum : ℕ} (ip : Inode)
    → is_entry dev inum ip ≡ true
    → (ip.dev ≡ dev) × (ip.inum ≡ inum) × (ip.ref ≢ 0)
is_entry_ids ip e = (ground arith, ground arith, ground arith)

-- `iget` keeps the table in order, and its result is an entry of the inode.
pub iget-IsTable :
    (dev inum : ℕ) (k : State) (i : ℕ) (k' : State)
    → IsTable k
    → iget dev inum k ≡ some (i, k')
    → IsTable k'
unfolding IsTable
iget-IsTable dev inum k i k' table e = keep (iget dev inum k) (iget-Iget dev inum k) e
  where
    keep : (r : Option (ℕ × State)) → Iget dev inum k r → r ≡ some (i, k') → IsTable k'
    keep _ (hit n lt here _) e =
        subst (λ (p : ℕ × State). IsTable p.1) (some-injective _ _ e)
          (same-IsTable k n (add_ref (k.inode n)) lt table (λ dev' inum' e'.
            let (same, same', _) = is_entry_ids (add_ref (k.inode n)) e' in
            let (_, _, held) = is_entry_ids (k.inode n) here in ground arith))
    keep _ (free n lt nil absent _) e =
        subst (λ (p : ℕ × State). IsTable p.1) (some-injective _ _ e)
          (with_inode-IsTable k n (fresh dev inum (k.inode n)) table (λ dev' inum' j lt' _ e'.
            let (same, same', _) = is_entry_ids (fresh dev inum (k.inode n)) e' in
            subst (λ a. is_entry a inum' (k.inode j) ≡ false) same
              (subst (λ b. is_entry dev b (k.inode j) ≡ false) same' (absent j (omega arith) lt'))))
    keep _ (full _ _) e = cc
