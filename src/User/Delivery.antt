-- ===== src/User/Delivery.antt =====
-- user/init.c, user/llmhelper.c, kernel/sysproc.c and kernel/proc.c: the way of a line of advice from
-- the console to the scheduler.
use osmini_project.Base.{
  is_nonpositive, ℕ, ◌-◌, ◌^◌, ◌<◌, ◌≡◌, refl, sym, ap, ◌∙◌, true, false, List, [], ◌∷◌, ◌++◌, none,
  some, modify, sub32, subst, arith, ◌==◌, length, append-nil, append_assoc, All,
}
use osmini_project.User.Line.{newline, advice_prefix, split_lines}
use osmini_project.User.Router.{is_end, between, router_loop, router_loop_lem, keys, Typed}
use osmini_project.User.Llmhelper.{buf_sz, is_digit, c_string, handle_line, new_buffer, helper_main}
use osmini_project.User.Llmhelper.Buffered.{handle_lines}
use osmini_project.User.Llmhelper.Parse.{value_from, IsDigits, handle_line-advice}
use osmini_project.User.Llmhelper.Chunks.{IsOpen, concat, helper_main_lem, FitsBuffer}
use osmini_project.Proc.Defs.{Advice, Kernel, running, is_runnable, proc_at}
use osmini_project.Proc.Sched.{schedule}
use osmini_project.Proc.Stats.{sys_set_llm_advice}
use osmini_project.Proc.Inv.Defs.{IsIdle}
use osmini_project.Proc.Advice.{schedule-advised}

-- The calls of `set_llm_advice` for a list of pids.
abbrev pub call_each : {W : Type 0} → List ℕ → Kernel W → Kernel W
call_each [] k = k
call_each (pid ∷ pids) k = call_each pids (sys_set_llm_advice pid k).1

-- What the agent types for a pid with the digits `ds`.
abbrev pub advice_line : List ℕ → List ℕ
advice_line ds = advice_prefix ++ ds

-- A byte that stands for itself in a line.
abbrev IsPlain : ℕ → Type 0
IsPlain c = (is_end c ≡ false) × ((c == 0) ≡ false)

digit-IsPlain : (c : ℕ) → is_digit c ≡ true → IsPlain c
digit-IsPlain c e = (ground arith, ground arith)

digits-IsPlain : (ds : List ℕ) → IsDigits ds → All IsPlain ds
digits-IsPlain [] h = tt
digits-IsPlain (d ∷ ds) h = (digit-IsPlain d h.0, digits-IsPlain ds h.1)

advice_line-IsPlain : (ds : List ℕ) → IsDigits ds → All IsPlain (advice_line ds)
advice_line-IsPlain ds h = (
  (refl, refl),
  (
    (refl, refl),
    (
      (refl, refl),
      (
        (refl, refl),
        (
          (refl, refl),
          (
            (refl, refl),
            (
              (refl, refl),
              ((refl, refl), ((refl, refl), ((refl, refl), ((refl, refl), digits-IsPlain ds h)))),
            ),
          ),
        ),
      ),
    ),
  ),
)

not_ends : (xs : List ℕ) → All IsPlain xs → All (λ c. is_end c ≡ false) xs
not_ends [] h = tt
not_ends (x ∷ xs) h = (h.0.0, not_ends xs h.1)

c_string-plain : (xs : List ℕ) → All IsPlain xs → c_string xs ≡ xs
unfolding c_string
c_string-plain [] h = refl
c_string-plain (x ∷ xs) h = rw h.0.1 (ap (λ l. x ∷ l) (c_string-plain xs h.1))

split_lines-plain :
    (line xs : List ℕ)
    → All IsPlain xs
    → split_lines line (xs ++ newline ∷ []) ≡ ((line ++ xs) ∷ [], [])
unfolding split_lines
split_lines-plain line [] h = rw append-nil
split_lines-plain line (x ∷ xs) h =
    let not_newline : (x == newline) ≡ false = let plain = h.0.0 in ground arith in
    rw not_newline (
      split_lines-plain (line ++ x ∷ []) xs h.1
      ∙ ap (λ (l : List ℕ). (l ∷ [], [])) (append_assoc line (x ∷ []) xs))

advice_line-handled :
    (d : ℕ) (ds : List ℕ)
    → IsDigits (d ∷ ds)
    → 0 < value_from 0 (d ∷ ds)
    → value_from 0 (d ∷ ds) < 2 ^ 31
    → handle_line (advice_line (d ∷ ds)) ≡ some (value_from 0 (d ∷ ds))
advice_line-handled d ds h pos int =
    ap (λ l. handle_line (advice_prefix ++ (d ∷ l))) (sym (append-nil ds))
    ∙ handle_line-advice [] d ds [] tt h tt pos int

-- The line of advice is in the buffer of user/init.c as typed.
abbrev pub typed : (d : ℕ) (ds : List ℕ) (ending : ℕ) → Typed
typed d ds ending = record { text = advice_line (d ∷ ds); ending = ending }

routed :
    (d : ℕ) (ds : List ℕ) (ending : ℕ)
    → IsDigits (d ∷ ds)
    → is_end ending ≡ true
    → length (advice_line (d ∷ ds)) < buf_sz - 1
    → router_loop (between [] []) (keys (typed d ds ending ∷ []))
      ≡ between [] (advice_line (d ∷ ds) ++ newline ∷ [])
routed d ds ending h e short = router_loop_lem (typed d ds ending ∷ []) [] [] (
  record {
    plain = not_ends (advice_line (d ∷ ds)) (advice_line-IsPlain (d ∷ ds) h);
    fits = omega (arith, short);
    ended = e;
  },
  tt,
)

called :
    (junk : ℕ → ℕ) (d : ℕ) (ds : List ℕ) (chunks : List (List ℕ))
    → IsDigits (d ∷ ds)
    → 0 < value_from 0 (d ∷ ds)
    → value_from 0 (d ∷ ds) < 2 ^ 31
    → length (advice_line (d ∷ ds)) < buf_sz - 1
    → IsOpen chunks
    → concat chunks ≡ advice_line (d ∷ ds) ++ newline ∷ []
    → helper_main (new_buffer junk) chunks ≡ value_from 0 (d ∷ ds) ∷ []
unfolding handle_lines
called junk d ds chunks h pos int short filled whole =
    let line = advice_line (d ∷ ds) in
    let plain = advice_line-IsPlain (d ∷ ds) h in
    let cut : split_lines [] (concat chunks) ≡ (line ∷ [], []) =
      ap (split_lines []) whole ∙ split_lines-plain [] line plain in
    let fits : FitsBuffer (split_lines [] (concat chunks)) = rw cut ((short, tt), omega arith) in
    helper_main_lem junk chunks filled fits
    ∙ rw (cut, handle_lines, c_string-plain line plain, advice_line-handled d ds h pos int)

set_advice :
    {W : Type 0} (k : Kernel W) (pid : ℕ)
    → 0 < pid
    → pid < 2 ^ 31
    → (sys_set_llm_advice pid k).1.advice
      ≡ record { recommended_pid = pid; valid = true; timestamp = k.ticks }
unfolding sys_set_llm_advice
set_advice k pid pos int = let int' : is_nonpositive pid ≡ false = ground arith in rw int'

module _ {W : Type 0} (swtch : ℕ → Kernel W → Kernel W) where
  -- A line of advice for a pid that is typed at the console and fits in the buffers goes to `llmhelper` alone,
  -- however its `read` cuts the line up into pieces that are not empty. Let `k` be the kernel when `llmhelper`
  -- makes its calls for it, and `later` that at the start of an iteration of the scheduler, in its
  -- invariant, with the advice as these calls have left it, fewer than ADVICE_TIMEOUT_TICKS interrupts
  -- after them, where process `i` is RUNNABLE and has that pid. Then this iteration switches to process `i` and to
  -- no other; the process is RUNNING then and the advice not valid any more.
  pub advice_delivered :
      (k later : Kernel W) (i d : ℕ) (ds : List ℕ) (ending : ℕ) (chunks : List (List ℕ))
      (junk : ℕ → ℕ)
      → IsDigits (d ∷ ds)
      → 0 < value_from 0 (d ∷ ds)
      → value_from 0 (d ∷ ds) < 2 ^ 31
      → length (advice_line (d ∷ ds)) < buf_sz - 1
      → is_end ending ≡ true
      → IsOpen chunks
      → concat chunks
        ≡ (router_loop (between [] []) (advice_line (d ∷ ds) ++ ending ∷ [])).to_helper
      → later.advice ≡ (call_each (helper_main (new_buffer junk) chunks) k).advice
      → sub32 later.ticks k.ticks < 200
      → IsIdle later
      → is_runnable (proc_at later i).state ≡ true
      → (proc_at later i).pid ≡ value_from 0 (d ∷ ds)
      → ((router_loop (between [] []) (advice_line (d ∷ ds) ++ ending ∷ [])).to_shell ≡ [])
        × (schedule swtch later ≡ (
          record (swtch i (record later {
            procs = modify later.procs i (λ p. record p { state = running });
            cpu_proc = some i;
            advice = record later.advice { valid = false };
          })) { cpu_proc = none },
          true,
        ))
  advice_delivered k later i d ds ending chunks junk h pos int short e filled whole kept recent v
        ready same =
      let route = routed d ds ending h e short in
      let calls =
        called junk d ds chunks h pos int short filled (whole ∙ ap (λ r. r.to_helper) route) in
      let pid = value_from 0 (d ∷ ds) in
      let given = kept ∙ ap (λ c. (call_each c k).advice) calls ∙ set_advice k pid pos int in
      let age : sub32 later.ticks later.advice.timestamp < 200 =
        subst (λ (a : Advice). sub32 later.ticks a.timestamp < 200) (sym given) recent in
      (
        ap (λ r. r.to_shell) route,
        schedule-advised swtch later i pid v (ap (λ (a : Advice). a.valid) given)
            (ap (λ (a : Advice). a.recommended_pid) given) age ready same,
      )
