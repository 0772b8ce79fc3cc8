-- ===== src/Lock/Nesting.antt =====
-- kernel/spinlock.c: push_off and pop_off come in pairs.
use osmini_project.Base.{
  ℕ, zero, suc, ◌+◌, ◌<◌, ◌^◌, ◌≡◌, refl, ap, ◌∙◌, Bool, false, Option, none, some, arith, ◌==◌,
  is_nonpositive, sub32, add32,
}
use osmini_project.Lock.{Cpu, push_off, pop_off}

-- `n` calls of `push_off`.
abbrev pub pushes : ℕ → Cpu → Cpu
pushes zero c = c
pushes (suc n) c = pushes n (push_off c)

-- `n` calls of `pop_off`.
abbrev pub pops : ℕ → Cpu → Option Cpu
pops zero c = some c
pops (suc n) c = elim (pop_off c) [ none ↦ none | some c' ↦ pops n c' ]

-- The CPU when it is `n` calls of `push_off` deep, with the interrupts `on` before the first.
abbrev pub deep : ℕ → Bool → Bool → Cpu
deep zero intena on = record { noff = 0; intena = intena; intr = on }
deep (suc n) intena on = record { noff = suc n; intena = on; intr = false }

push_off-deep :
    (n : ℕ) (intena on : Bool)
    → suc n < 2 ^ 31
    → push_off (deep n intena on) ≡ deep (suc n) intena on
unfolding push_off
push_off-deep zero intena on h = refl
push_off-deep (suc n) intena on h =
    let inner : (suc n == 0) ≡ false = ground arith in
    let deeper : add32 (suc n) 1 ≡ suc (suc n) = omega arith in rw (push_off, inner, deeper)

pop_off-deep :
    (n : ℕ) (intena on : Bool)
    → suc n < 2 ^ 31
    → pop_off (deep (suc n) intena on) ≡ some (deep n on on)
unfolding pop_off
pop_off-deep zero intena on h = refl
pop_off-deep (suc n) intena on h =
    let inner : is_nonpositive (suc (suc n)) ≡ false = ground arith in
    let less : sub32 (suc (suc n)) 1 ≡ suc n = omega arith in
    let still : (suc n == 0) ≡ false = ground arith in rw (inner, less, still)

pushes-deep :
    (n m : ℕ) (intena on : Bool)
    → n + m < 2 ^ 31
    → pushes n (deep m intena on) ≡ deep (n + m) intena on
pushes-deep zero m intena on h = ap (λ k. deep k intena on) (omega arith)
pushes-deep (suc n) m intena on h =
    ap (pushes n) (push_off-deep m intena on (omega arith))
    ∙ pushes-deep n (suc m) intena on (omega arith)
    ∙ ap (λ k. deep k intena on) (omega arith)

pops-deep :
    (n : ℕ) (intena on : Bool)
    → suc n < 2 ^ 31
    → pops (suc n) (deep (suc n) intena on) ≡ some (deep 0 on on)
pops-deep zero intena on h = rw (pops, pop_off-deep zero intena on h)
pops-deep (suc n) intena on h =
    rw (pops, pop_off-deep (suc n) intena on h) (pops-deep n on on (omega arith))

-- As many `pop_off` as `push_off` before them leave the interrupts as they were before the first one;
-- in between they are off.
pub pops-pushes :
    (n : ℕ) (c : Cpu)
    → c.noff ≡ 0
    → suc n < 2 ^ 31
    → ((pushes (suc n) c).intr ≡ false)
      × (pops (suc n) (pushes (suc n) c) ≡ some (record c { noff = 0; intena = c.intr }))
pops-pushes n c outer h =
    let start : c ≡ deep 0 c.intena c.intr = ap (λ k. record c { noff = k }) outer in
    let sum : suc n + 0 ≡ suc n = omega arith in
    let inside : pushes (suc n) c ≡ deep (suc n) c.intena c.intr =
      ap (pushes (suc n)) start
      ∙ pushes-deep (suc n) 0 c.intena c.intr (omega arith)
      ∙ ap (λ k. deep k c.intena c.intr) sum in
    (ap (λ (c : Cpu). c.intr) inside, ap (pops (suc n)) inside ∙ pops-deep n c.intena c.intr h)
