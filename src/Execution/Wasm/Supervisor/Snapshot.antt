-- ===== src/Execution/Wasm/Supervisor/Snapshot.antt =====
-- internal/execution/wasm/supervisor.go: the memory that a message finds.
use shimmy_wasm_go.Base.{
  zero, ◌≤◌, String, ◌≡◌, refl, sym, ap, ◌∙◌, inl, inr, true, Option, some, List, [], ◌∷◌, length,
  Bytes, arith, Option-cases, Bool-cases,
}
use mathlib.Core.Path.{subst}
use shimmy_wasm_go.Exec.{Error, Result, ok, err, panics, Result-cases}
use shimmy_wasm_go.Json.{Map}
use shimmy_wasm_go.Execution.Wasm.Adapter.{Guest, Spelling}
use shimmy_wasm_go.Execution.Wasm.Adapter.Growth.{Laws, Grown, send-Grown}
use shimmy_wasm_go.Execution.Wasm.Adapter
use shimmy_wasm_go.Execution.Wasm.Supervisor.{
  WasmSupervisor, new, take_snapshot, start, restore_snapshot, send, sent,
}

-- The memory is there, and its front is the snapshot.
pub record Clean {G : Type 0} (guest : Guest G) (b : Bytes) (g : G) : Type 0 where
  pub has_memory : guest.has_memory ≡ true
  pub fits : length b ≤ guest.size g
  pub front : guest.read g zero (length b) ≡ some b

-- The supervisor is started and clean, with this snapshot.
pub record Ready {G : Type 0} (guest : Guest G) (b : Bytes) (s : WasmSupervisor G) : Type 0 where
  pub has_snapshot : s.snapshot ≡ some b
  pub guest_state : G
  pub is_up : s.instance_of ≡ some guest_state
  pub clean : Clean guest b guest_state

-- Messages one behind the other, whatever they return.
unfoldable pub run :
    {G : Type 0} → Guest G → Spelling → WasmSupervisor G → List (String × Map) → WasmSupervisor G
unfolding send
run guest json s [] = s
run guest json s ((method, m) ∷ ms) = run guest json (send guest json method m s).1 ms

module _ {G : Type 0} (guest : Guest G) (json : Spelling) (laws : Laws guest json) where
  take_snapshot-Clean :
      (g : G) (b : Bytes) → take_snapshot guest json g ≡ ok (some b) → Clean guest b g
  unfolding take_snapshot
  take_snapshot-Clean g b e = elim (Bool-cases guest.has_memory) [
    | inr h ↦ absurd (ground arith)
    | inl h ↦ elim (Option-cases (guest.read g zero (guest.size g))) [
      | inl r ↦ absurd (ground arith)
      | inr (c, r) ↦
          let same : c ≡ b = ground arith in
          let long : length b ≡ guest.size g =
            laws.read-length g (guest.size g) b (r ∙ ap (λ z. some z) same) in
          record {
            has_memory = h;
            fits = omega arith;
            front = ap (λ n. guest.read g zero n) long ∙ r ∙ ap (λ z. some z) same;
          }
    ]
  ]

  restore_snapshot-Clean :
      (b : Bytes) (g : G)
      → guest.has_memory ≡ true
      → length b ≤ guest.size g
      → Clean guest b (restore_snapshot guest json (some b) g)
  unfolding restore_snapshot
  restore_snapshot-Clean b g p l = elim (Option-cases (guest.write g zero b)) [
    | inl e ↦ absurd (laws.write_fits g b l e)
    | inr (h, e) ↦
        let same : restore_snapshot guest json (some b) g ≡ h = ground arith in
        subst (Clean guest b) (sym same) (record {
          has_memory = p;
          fits = grind (arith, laws.size-write g h zero b e);
          front = laws.read-write g h b e;
        })
  ]

  Ready-again :
      (b : Bytes) (h : G) (o : Option Bytes)
      → o ≡ some b
      → guest.has_memory ≡ true
      → length b ≤ guest.size h
      → Ready guest b
          (record { instance_of = some (restore_snapshot guest json o h); snapshot = o })
  Ready-again b h o e p l =
      subst
        (λ z.
          Ready guest b
            (record { instance_of = some (restore_snapshot guest json z h); snapshot = z }))
        (sym e)
        (record {
          has_snapshot = refl;
          guest_state = restore_snapshot guest json (some b) h;
          is_up = refl;
          clean = restore_snapshot-Clean b h p l;
        })

  sent-Ready :
      (b : Bytes) (s : WasmSupervisor G) (g : G) (o : Result Error Map × G)
      → s.snapshot ≡ some b
      → Clean guest b g
      → Grown guest g o
      → Ready guest b (sent guest json s o).1
  sent-Ready b s g (ok m, h) e c l =
      Ready-again b h s.snapshot e c.has_memory (grind (arith, c.fits, l.grows))
  sent-Ready b s g (err x, h) e c l =
      Ready-again b h s.snapshot e c.has_memory (grind (arith, c.fits, l.grows))
  sent-Ready b s g (panics, h) e c l = absurd (l.returns refl)

  send-Ready :
      (b : Bytes) (s : WasmSupervisor G) (method : String) (m : Map)
      → Ready guest b s
      → Ready guest b (send guest json method m s).1
  unfolding send
  send-Ready b s method m r =
      let same : send guest json method m s
          ≡ sent guest json s (Adapter.send guest json method m r.guest_state) =
        grind (arith, r.is_up) in
      subst (λ o. Ready guest b o.1) (sym same)
        (sent-Ready b s r.guest_state _ r.has_snapshot r.clean
          (send-Grown guest json laws method m r.guest_state))

  start-Ready :
      (g : G) (b : Bytes) (s : WasmSupervisor G)
      → start guest json (ok g) new ≡ (ok tt, s)
      → s.snapshot ≡ some b
      → Ready guest b s
  unfolding start
  start-Ready g b s e p = elim (Result-cases (take_snapshot guest json g)) [
    | inl (o, t) ↦
        let same : s ≡ record { instance_of = some g; snapshot = o } = ground arith in
        let whole : o ≡ some b = sym (ap (λ z. z.snapshot) same) ∙ p in
        record {
          has_snapshot = p;
          guest_state = g;
          is_up = ap (λ z. z.instance_of) same;
          clean = take_snapshot-Clean g b (t ∙ ap (λ z. ok z) whole);
        }
    | inr (inl (x, t)) ↦ absurd (ground arith)
    | inr (inr t) ↦ absurd (ground arith)
  ]

  run_from-Ready :
      (b : Bytes) (s : WasmSupervisor G) (ms : List (String × Map))
      → Ready guest b s
      → Ready guest b (run guest json s ms)
  unfolding run
  run_from-Ready b s [] r = r
  run_from-Ready b s ((method, m) ∷ ms) r =
      run_from-Ready b (send guest json method m s).1 ms (send-Ready b s method m r)

  -- If the runtime and the guest keep their promises and the start of an instance takes a snapshot
  -- of its memory, then behind any sequence of messages, answered or failed, the supervisor has
  -- this snapshot and an instance, and the front of its memory is the snapshot.
  pub run-Ready :
      (g : G) (b : Bytes) (s : WasmSupervisor G) (ms : List (String × Map))
      → start guest json (ok g) new ≡ (ok tt, s)
      → s.snapshot ≡ some b
      → Ready guest b (run guest json s ms)
  run-Ready g b s ms e p = run_from-Ready b s ms (start-Ready g b s e p)
