-- ===== src/Execution/Dispatcher/Pooled/Disposal.antt =====
-- What dispatcher_pooled.go does with the resources of its pool.
use shimmy_wasm_go.Base.{
  ℕ, zero, suc, ◌<◌, ◌^◌, String, ◌≡◌, ◌≢◌, ◌⊎◌, inl, inr, refl, true, false, Option, none, some,
  List, ◌∷◌, arith, Option-cases,
}
use shimmy_wasm_go.Exec.{Error, wrap, Result, ok, err, panics, Returned-cases}
use shimmy_wasm_go.Json.{Map, pos, negsuc}
use shimmy_wasm_go.Execution.Supervisor.{Ref, SendResult}
use shimmy_wasm_go.Execution.Dispatcher.Pooled.{
  Pool, Use, acquired, destroyed, released, Leftover, Dispatcher, send, send_to_supervisor, dispose,
  destroy_or_release, int32, max_size,
}

module _ {P : Type 0} (p : Pool P) where
  -- How the disposal of the resource `r` ends, behind a message that returned `x` and on a dispatcher
  -- that has used `t`: in a panic, which ends the program; with the resource back in the pool, if the
  -- message was answered; or with the resource destroyed.
  abbrev pub Disposed :
      Ref → Result Error Map → List Use → Result Error (Unit {0}) × Dispatcher P → Type 0
  Disposed r x t o =
      (o.0 ≡ panics)
      ⊎ ((m : Map) × (x ≡ ok m) × (o.1.uses ≡ released r ∷ t))
      ⊎ ((m : Map) × (x ≡ ok m) × (o.1.uses ≡ destroyed r ∷ t))
      ⊎ ((e : Error) × (x ≡ err e) × (o.1.uses ≡ destroyed r ∷ t))

  dispose-answered :
      (r : Ref) (m : Map) (res : SendResult) (later : Dispatcher P)
      → Disposed r
          (ok m)
          later.uses
          (dispose p (record { resource = r; failed = false; result = some res }) later)
  unfolding dispose destroy_or_release
  dispose-answered r m res later = elim (Returned-cases (p.run_release res.release later.pool)) [
    | inl (u, q, c) ↦ inr (inl (m, refl, grind arith))
    | inr (inl (e, q, c)) ↦ inr (inr (inl (m, refl, grind arith)))
    | inr (inr (q, c)) ↦ inl (grind arith)
  ]

  dispose-failed :
      (r : Ref) (e : Error) (o : Option SendResult) (later : Dispatcher P)
      → Disposed r
          (err e)
          later.uses
          (dispose p (record { resource = r; failed = true; result = o }) later)
  unfolding dispose destroy_or_release
  dispose-failed r e none later = inr (inr (inr (e, refl, refl)))
  dispose-failed r e (some res) later =
      elim (Returned-cases (p.run_release res.release later.pool)) [
        | inl (u, q, c) ↦ inr (inr (inr (e, refl, grind arith)))
        | inr (inl (x, q, c)) ↦ inr (inr (inr (e, refl, grind arith)))
        | inr (inr (q, c)) ↦ inl (grind arith)
      ]

  -- A message that does not panic either fails to get a resource, and then uses none, or it gets one
  -- and leaves one disposal of it, which runs later, on whatever has become of the dispatcher: unless
  -- that panics, the resource is disposed of once, and it is destroyed after an error, and goes back
  -- to the pool or is destroyed after an answer.
  pub send-Disposed :
      (method : String) (m : Map) (d later : Dispatcher P)
      → (send p method m d).0 ≢ panics
      → ((e : Error) × ((send p method m d).0 ≡ err (wrap "error acquiring supervisor" e))
          × ((send p method m d).1.uses ≡ d.uses)
          × ((send p method m d).1.pending ≡ d.pending))
        ⊎ ((r : Ref) × (x : Leftover) × ((send p method m d).1.uses ≡ acquired r ∷ d.uses)
            × ((send p method m d).1.pending ≡ x ∷ d.pending)
            × Disposed r (send p method m d).0 later.uses (dispose p x later))
  unfolding send send_to_supervisor
  send-Disposed method m d later k = elim (Returned-cases (p.acquire d.pool)) [
    | inl (r, q, a) ↦ elim (Returned-cases (p.send r method m q)) [
      | inl (res, s, b) ↦ elim (Option-cases res.error) [
        | inl o ↦
            let x : Leftover = record {
              resource = r;
              failed = false;
              result = some (record res { error = none });
            } in
            rw (a, b, o) (inr (r, x, refl, refl, dispose-answered r res.data_out _ later))
        | inr (e, o) ↦
            let x : Leftover = record {
              resource = r;
              failed = true;
              result = some (record res { error = some e });
            } in
            rw (a, b, o) (inr (r, x, refl, refl, dispose-failed r _ _ later))
      ]
      | inr (inl (e, s, b)) ↦
          let x : Leftover = record { resource = r; failed = true; result = none } in
          rw (a, b) (inr (r, x, refl, refl, dispose-failed r _ none later))
      | inr (inr (s, b)) ↦ absurd (k (grind arith))
    ]
    | inr (inl (e, q, a)) ↦ rw a (inl (e, refl, refl, refl))
    | inr (inr (q, a)) ↦ absurd (k (ground arith))
  ]

-- A configured number of workers that is positive and fits in 32 bits is the size of the pool, and
-- one that is zero or negative leaves the number of CPUs, which is below 2^31.
pub max_size-configured :
    (cpus n k : ℕ)
    → cpus < 2 ^ 31
    → suc n < 2 ^ 31
    → (max_size cpus (pos (suc n)) ≡ pos (suc n))
      × (max_size cpus (pos zero) ≡ pos cpus)
      × (max_size cpus (negsuc k) ≡ pos cpus)
unfolding max_size int32
max_size-configured cpus n k h l = (grind arith, grind arith, grind arith)
