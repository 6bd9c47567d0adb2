-- ===== src/Comm/Task.antt =====
-- The task loop `comm_task_fn` of components/comm_module/src/comm_module.c, over the results of its
-- calls of `transport_run_session` and the stop flag that it reads before each.
use mathlib.Core.List.{append_assoc}
use smart_lock_firmware.Common.{
  zero, suc, ◌++◌, refl, sym, ap, ◌∙◌, replicate, ℕ, ◌+◌, ◌<◌, ◌≡◌, ◌↔◌, Bool, true, false, Option,
  none, some, List, [], ◌∷◌, leb, if◌then◌else◌, arith,
}
use smart_lock_firmware.Transport.Apdu.{TransportErr}

abbrev pub comm_fatal_retry_limit : ℕ
comm_fatal_retry_limit = 3

-- How the loop ended: asked to stop, too many fatal errors, or still running with its counter when
-- the results were used up.
pub data TaskEnd : Type 0 where
  stopped gave_up : TaskEnd
  running : ℕ → TaskEnd

-- What one result does to the counter of consecutive fatal errors; `none` leaves the loop.
unfoldable pub count_fatal : TransportErr → ℕ → Option ℕ
count_fatal TransportErr.bus_fatal n =
    if leb comm_fatal_retry_limit (n + 1) then none else some (n + 1)
count_fatal _ n = some 0

unfoldable pub comm_task_loop : List (Bool × TransportErr) → ℕ → TaskEnd
comm_task_loop [] n = TaskEnd.running n
comm_task_loop ((stop_requested, err) ∷ rest) n =
    let on = λ (m : ℕ). comm_task_loop rest m in
    if stop_requested
    then TaskEnd.stopped
    else (elim (count_fatal err n) [ none ↦ TaskEnd.gave_up | some m ↦ on m ])

-- A session that ends with a fatal bus.
abbrev pub fatal : Bool × TransportErr
fatal = (false, TransportErr.bus_fatal)

-- The task is not asked to stop before any of these sessions.
abbrev pub NoStop : List (Bool × TransportErr) → Type 0
NoStop [] = Unit
NoStop ((stop_requested, err) ∷ rest) = (stop_requested ≡ false) × NoStop rest

-- Three sessions in a row end with a fatal bus, after sessions without a request to stop.
abbrev pub ThreeFatal : List (Bool × TransportErr) → Type 0
ThreeFatal results =
    (before after : List (Bool × TransportErr)) × (results
      ≡ before ++ fatal ∷ fatal ∷ fatal ∷ after)
    × NoStop before

NoStop-append : (xs ys : List (Bool × TransportErr)) → NoStop xs → NoStop ys → NoStop (xs ++ ys)
NoStop-append [] ys p q = q
NoStop-append ((stop_requested, err) ∷ xs) ys (off, p) q = (off, NoStop-append xs ys p q)

-- A session of another kind behind those that were counted.
ThreeFatal-other :
    (counted rest : List (Bool × TransportErr)) (err : TransportErr)
    → NoStop counted
    → ThreeFatal rest
    → ThreeFatal (counted ++ (false, err) ∷ rest)
ThreeFatal-other counted rest err c (before, after, e, s) = (
  counted ++ (false, err) ∷ before,
  after,
  ap (λ (xs : List (Bool × TransportErr)). counted ++ (false, err) ∷ xs) e
      ∙ sym (append_assoc counted ((false, err) ∷ before) (fatal ∷ fatal ∷ fatal ∷ after)),
  NoStop-append counted ((false, err) ∷ before) c (refl, s),
)

-- The `n` fatal sessions that the counter stands for.
abbrev counted : ℕ → List (Bool × TransportErr)
counted n = replicate n fatal

counted-NoStop : (n : ℕ) → NoStop (counted n)
counted-NoStop zero = tt
counted-NoStop (suc n) = (refl, counted-NoStop n)

gave_up-ThreeFatal :
    (results : List (Bool × TransportErr)) (n : ℕ)
    → n < 3
    → comm_task_loop results n ≡ TaskEnd.gave_up
    → ThreeFatal (counted n ++ results)
unfolding comm_task_loop count_fatal
gave_up-ThreeFatal [] n b h = cc
gave_up-ThreeFatal ((true, err) ∷ rest) n b h = cc
gave_up-ThreeFatal ((false, TransportErr.bus_fatal) ∷ rest) zero b h =
    gave_up-ThreeFatal rest 1 (omega arith) h
gave_up-ThreeFatal ((false, TransportErr.bus_fatal) ∷ rest) (suc zero) b h =
    gave_up-ThreeFatal rest 2 (omega arith) h
gave_up-ThreeFatal ((false, TransportErr.bus_fatal) ∷ rest) (suc (suc zero)) b h =
    ([], rest, refl, tt)
gave_up-ThreeFatal ((false, TransportErr.bus_fatal) ∷ rest) (suc (suc (suc n))) b h =
    absurd (omega arith)
gave_up-ThreeFatal ((false, _) ∷ rest) n b h =
    ThreeFatal-other (counted n) rest _ (counted-NoStop n)
      (gave_up-ThreeFatal rest 0 (omega arith) h)

ThreeFatal-gave_up :
    (before after : List (Bool × TransportErr)) (n : ℕ)
    → n < 3
    → NoStop before
    → comm_task_loop (before ++ fatal ∷ fatal ∷ fatal ∷ after) n ≡ TaskEnd.gave_up
unfolding comm_task_loop count_fatal
ThreeFatal-gave_up [] after n b s = ground arith
ThreeFatal-gave_up ((true, err) ∷ before) after n b (off, s) = absurd (cc off)
ThreeFatal-gave_up ((false, TransportErr.bus_fatal) ∷ before) after n b (off, s) =
    ground (arith, λ (c : n + 1 < 3). ThreeFatal-gave_up before after (n + 1) c s)
ThreeFatal-gave_up ((false, _) ∷ before) after n b (off, s) =
    ThreeFatal-gave_up before after 0 (omega arith) s

-- The comm task gives up exactly when, after sessions before none of which it was asked to stop, three
-- sessions in a row end with a fatal bus, before none of which it is asked to stop either: fewer in a
-- row, or with any other result between them, never end it.
pub comm_task_loop-gives_up :
    (results : List (Bool × TransportErr))
    → (comm_task_loop results 0 ≡ TaskEnd.gave_up) ↔ (
        (before after : List (Bool × TransportErr)) × (results
          ≡ before ++ fatal ∷ fatal ∷ fatal ∷ after)
        × NoStop before)
comm_task_loop-gives_up results = (
  gave_up-ThreeFatal results 0 (omega arith),
  λ (before, after, e, s). rw e (ThreeFatal-gave_up before after 0 (omega arith) s),
)
