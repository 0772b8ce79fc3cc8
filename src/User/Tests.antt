-- ===== src/User/Tests.antt =====
-- Runs of the models of user/init.c and user/llmhelper.c, and their theorems at concrete lines.
use osmini_project.Base.{
  ℕ, ◌+◌, ◌≡◌, refl, true, false, none, modify, List, [], ◌∷◌, ◌++◌, some, arith,
}
use osmini_project.User.Line.{codes, newline, strip_prefix, split_lines}
use osmini_project.User.Llmhelper.{
  handle_line, new_buffer, helper_main, helper_round, scan_lines, store_bytes, c_string,
  skip_blanks, read_pid,
}
use osmini_project.User.Llmhelper.Parse.{handle_line-advice}
use osmini_project.User.Llmhelper.Buffered.{handle_lines}
use osmini_project.User.Llmhelper.Chunks.{helper_main_lem, concat}
use osmini_project.User.Router.{
  router_loop, router_loop_lem, between, keys, lines_for, Typed, is_advice_line, route, forward,
}
use osmini_project.User.Delivery.{advice_line, advice_delivered}
use osmini_project.Proc.Sched.{schedule}
use osmini_project.Proc.Defs.{Kernel, running}
use osmini_project.Proc.Stats.{sys_set_llm_advice}
use osmini_project.Proc.Inv.Defs.{IsIdle}
use osmini_project.Proc.Tests.{booted, booted-IsIdle, yield_at_once}

handle_line-advice_example : handle_line (codes " ADVICE:PID=42 CONF") ≡ some 42
handle_line-advice_example =
    handle_line-advice (b' ' ∷ []) b'4' (b'2' ∷ []) (codes " CONF") (refl, tt) (refl, (refl, tt))
      refl (omega arith) (omega arith)

-- Two lines in three reads.
abbrev reads : List (List ℕ)
reads =
    codes "ADVICE:P"
    ∷ (codes "ID=3" ++ newline ∷ codes "ADVICE:PID=")
    ∷ (codes "12" ++ newline ∷ [])
    ∷ []

reads_lines :
    split_lines [] (concat reads) ≡ (codes "ADVICE:PID=3" ∷ codes "ADVICE:PID=12" ∷ [], [])
unfolding split_lines
reads_lines = refl

helper_main_lem_example :
    helper_main (new_buffer (λ _. 0)) reads ≡ handle_lines (split_lines [] (concat reads)).0
helper_main_lem_example =
    helper_main_lem (λ _. 0) reads (omega arith, (omega arith, (omega arith, tt)))
      (rw reads_lines ((omega arith, (omega arith, tt)), omega arith))

abbrev typed_lines : List Typed
typed_lines =
    record { text = codes "ls"; ending = newline }
    ∷ record { text = codes "ADVICE:PID=3"; ending = 13 }
    ∷ record { text = codes "cat f"; ending = 13 }
    ∷ []

router_loop_lem_example :
    router_loop (between [] []) (keys typed_lines)
    ≡ between (lines_for false typed_lines) (lines_for true typed_lines)
router_loop_lem_example = router_loop_lem typed_lines [] [] (
  record { plain = (refl, (refl, tt)); fits = omega arith; ended = refl },
  (
    record {
      plain = (
        refl,
        (refl, (refl, (refl, (refl, (refl, (refl, (refl, (refl, (refl, (refl, (refl, tt))))))))))),
      );
      fits = omega arith;
      ended = refl;
    },
    (
      record {
        plain = (refl, (refl, (refl, (refl, (refl, tt)))));
        fits = omega arith;
        ended = refl;
      },
      tt,
    ),
  ),
)

abbrev later : Kernel ℕ
later = record booted {
  advice = record { recommended_pid = 1; valid = true; timestamp = booted.ticks };
  ticks = booted.ticks + 7;
}

later-IsIdle : IsIdle later
later-IsIdle = record {
  valid = record {
    table = booted-IsIdle.valid.table;
    pid_start = booted-IsIdle.valid.pid_start;
    pid_range = booted-IsIdle.valid.pid_range;
  };
  quiet = booted-IsIdle.quiet;
}

advice_delivered_example :
    ((router_loop (between [] []) (advice_line (b'1' ∷ []) ++ 13 ∷ [])).to_shell ≡ [])
    × (schedule yield_at_once later ≡ (
      record (yield_at_once 0 (record later {
        procs = modify later.procs 0 (λ p. record p { state = running });
        cpu_proc = some 0;
        advice = record later.advice { valid = false };
      })) { cpu_proc = none },
      true,
    ))
unfolding booted router_loop route forward is_advice_line strip_prefix helper_main helper_round
    scan_lines store_bytes c_string handle_line skip_blanks read_pid sys_set_llm_advice
advice_delivered_example =
    advice_delivered yield_at_once booted later 0 b'1' [] 13
      ((codes "ADVICE:PID=1" ++ newline ∷ []) ∷ []) (λ _. 0) (refl, tt) (omega arith) (omega arith)
      (omega arith) refl (omega arith, tt) refl refl (omega arith) later-IsIdle refl refl
