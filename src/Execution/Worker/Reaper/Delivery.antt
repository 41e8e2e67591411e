-- ===== src/Execution/Worker/Reaper/Delivery.antt =====
-- Who gets the exit event of a process, and who does not.
use shimmy_wasm_go.Base.{◌≡◌, ◌≢◌, refl, false, some, arith}
use shimmy_wasm_go.Execution.Worker.Exit.{WaitResult, ExitEvent, get_exit_event}
use shimmy_wasm_go.Execution.Worker.Reaper.{
  Phase, before_wait, before_stderr, before_exit, finished, sending, away, waiting, gave_up, took,
  Running, init, Reaps, sees_wait, sees_stderr, sees_exit, delivers, Step, reaps, calls_wait,
  context_ends, exits, copies, copy_ends, Reach, here, then_step, Reaping, rested, reaped,
}

-- The event is that of the process that ended, with all that was copied.
abbrev pub Complete : Running → ExitEvent → Type 0
Complete s e =
    (s.copying ≡ false) × ((r : WaitResult) × (s.ended ≡ some r) × (e ≡ get_exit_event r s.copied))

record Inv (s : Running) : Type 0 where
  called : s.phase ≢ before_wait → s.caller ≢ away
  read : s.phase ≡ before_exit → s.copying ≡ false
  sent : (e : ExitEvent) → s.phase ≡ sending e → Complete s e
  given : (e : ExitEvent) → s.caller ≡ took e → (s.phase ≡ finished) × Complete s e
  over : s.phase ≡ finished → (e : ExitEvent) × (s.caller ≡ took e)

Reaps-Inv : {s t : Running} → Reaps s t → Inv s → Inv t
Reaps-Inv {s} (sees_wait p q) v = record {
  called = λ k. q;
  read = λ k. cc;
  sent = λ e k. cc;
  given = λ e k. ground (arith, v.given e k);
  over = λ k. cc;
}
Reaps-Inv {s} (sees_stderr p q) v = record {
  called = λ k. v.called (ground arith);
  read = λ k. q;
  sent = λ e k. cc;
  given = λ e k. ground (arith, v.given e k);
  over = λ k. cc;
}
Reaps-Inv {s} (sees_exit r p q) v = record {
  called = λ k. v.called (ground arith);
  read = λ k. cc;
  sent = λ e k. (v.read p, (r, q, ground arith));
  given = λ e k. ground (arith, v.given e k);
  over = λ k. cc;
}
Reaps-Inv {s} (delivers e p q) v = record {
  called = λ k. λ l. cc;
  read = λ k. cc;
  sent = λ f k. cc;
  given = λ f k. ground (arith, v.sent e p);
  over = λ k. (e, refl);
}

Step-Inv : {s t : Running} → Step s t → Inv s → Inv t
Step-Inv (reaps t r) v = Reaps-Inv r v
Step-Inv {s} (calls_wait p) v = record {
  called = λ k l. cc;
  read = v.read;
  sent = v.sent;
  given = λ e k. cc;
  over = λ k. ground (arith, v.over k);
}
Step-Inv {s} (context_ends p) v = record {
  called = λ k l. cc;
  read = v.read;
  sent = v.sent;
  given = λ e k. cc;
  over = λ k. ground (arith, v.over k);
}
Step-Inv {s} (exits r p) v = record {
  called = v.called;
  read = v.read;
  sent = λ e k. absurd (ground (arith, v.sent e k));
  given = λ e k. absurd (ground (arith, v.given e k));
  over = v.over;
}
Step-Inv {s} (copies b p) v = record {
  called = v.called;
  read = v.read;
  sent = λ e k. ground (arith, v.sent e k);
  given = λ e k. ground (arith, v.given e k);
  over = v.over;
}
Step-Inv {s} (copy_ends p) v = record {
  called = v.called;
  read = λ k. refl;
  sent = λ e k. ground (arith, v.sent e k);
  given = λ e k. ground (arith, v.given e k);
  over = v.over;
}

init-Inv : Inv init
init-Inv = record {
  called = λ k. absurd (k refl);
  read = λ k. cc;
  sent = λ e k. cc;
  given = λ e k. cc;
  over = λ k. cc;
}

Reach-Inv : {s : Running} → Reach init s → Inv s
Reach-Inv here = init-Inv
Reach-Inv (then_step t u r p) = Step-Inv p (Reach-Inv r)

-- The event that a caller of `Wait` takes tells how the process ended, and with it all that was
-- copied from its stderr: the process has ended and the copy is over.
pub Reach-complete : (s : Running) (e : ExitEvent) → Reach init s → s.caller ≡ took e → Complete s e
Reach-complete s e r p = ((Reach-Inv r).given e p).1

-- the event that the goroutine will send
abbrev Delivered : Running → WaitResult → Type 0
Delivered s r =
    (t : Running) × Reaping s t
    × (t.caller ≡ took (get_exit_event r s.copied))
    × (t.phase ≡ finished)

from_exit :
    (s : Running) (r : WaitResult)
    → s.caller ≡ waiting
    → s.ended ≡ some r
    → s.phase ≡ before_exit
    → Delivered s r
from_exit s r w x e =
    let f = get_exit_event r s.copied in
    let t = record s { phase = sending f } in
    let u = record s { phase = finished; caller = took f } in
    (u, reaped s t u (sees_exit r e x) (reaped t u u (delivers f refl w) (rested u)), refl, refl)

from_stderr :
    (s : Running) (r : WaitResult)
    → s.caller ≡ waiting
    → s.copying ≡ false
    → s.ended ≡ some r
    → s.phase ≡ before_stderr
    → Delivered s r
from_stderr s r w c x e =
    let u = record s { phase = before_exit } in
    let (t, g, h, k) = from_exit u r w x refl in (t, reaped s u t (sees_stderr e c) g, h, k)

from_wait :
    (s : Running) (r : WaitResult)
    → s.caller ≡ waiting
    → s.copying ≡ false
    → s.ended ≡ some r
    → s.phase ≡ before_wait
    → Delivered s r
from_wait s r w c x e =
    let u = record s { phase = before_stderr } in
    let (t, g, h, k) = from_stderr u r w c x refl in
    (t, reaped s u t (sees_wait e (ground arith)) g, h, k)

deliver_by :
    (s : Running) (r : WaitResult) (p : Phase)
    → Inv s
    → s.caller ≡ waiting
    → s.copying ≡ false
    → s.ended ≡ some r
    → s.phase ≡ p
    → Delivered s r
deliver_by s r finished v w c x e = absurd (ground (arith, v.over e))
deliver_by s r (sending f) v w c x e =
    let t = record s { phase = finished; caller = took f } in
    (t, reaped s t t (delivers f e w) (rested t), ground (arith, v.sent f e), refl)
deliver_by s r before_exit v w c x e = from_exit s r w x e
deliver_by s r before_stderr v w c x e = from_stderr s r w c x e
deliver_by s r before_wait v w c x e = from_wait s r w c x e

-- From every state that a worker gets to in which a caller waits, the process has ended and its
-- stderr is copied, steps of the one goroutine lead to the caller having the exit event of that
-- process and to the goroutine's end.
pub Reach-delivers :
    (s : Running) (r : WaitResult)
    → Reach init s
    → s.caller ≡ waiting
    → s.copying ≡ false
    → s.ended ≡ some r
    → Delivered s r
Reach-delivers s r reach w c x = deliver_by s r s.phase (Reach-Inv reach) w c x refl

Step-gave_up : {s t : Running} → Step s t → s.caller ≡ gave_up → t.caller ≡ gave_up
Step-gave_up (reaps t (sees_wait p q)) g = g
Step-gave_up (reaps t (sees_stderr p q)) g = g
Step-gave_up (reaps t (sees_exit r p q)) g = g
Step-gave_up (reaps t (delivers e p q)) g = absurd (ground arith)
Step-gave_up (calls_wait p) g = absurd (ground arith)
Step-gave_up (context_ends p) g = absurd (ground arith)
Step-gave_up (exits r p) g = g
Step-gave_up (copies b p) g = g
Step-gave_up (copy_ends p) g = g

stays_gave_up :
    {s t : Running} → Inv s → s.caller ≡ gave_up → Reach s t → Inv t × (t.caller ≡ gave_up)
stays_gave_up v g here = (v, g)
stays_gave_up v g (then_step t u r p) =
    let (w, h) = stays_gave_up v g r in (Step-Inv p w, Step-gave_up p h)

-- Once the context of the caller has ended before the process, the goroutine that waits for the
-- process never ends, whatever happens later: nobody takes the event that it sends.
pub gave_up-leaks :
    (s t : Running) → Reach init s → s.caller ≡ gave_up → Reach s t → t.phase ≢ finished
gave_up-leaks s t reach g later p =
    let (v, h) = stays_gave_up (Reach-Inv reach) g later in ground (arith, v.over p)
