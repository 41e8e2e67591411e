-- ===== src/Execution/Wasm/Supervisor.antt =====
-- internal/execution/wasm/supervisor.go: one module instance, whose memory is restored behind each
-- message. The lock makes each call one step.
pub mod Snapshot
use shimmy_wasm_go.Base.{
  ℕ, zero, suc, String, ◌≡◌, ◌==◌, Bool, true, false, Option, none, some, List, [], ◌∷◌, Bytes,
  if◌then◌else◌,
}
use shimmy_wasm_go.Exec.{Error, message, wrap, Result, ok, err, panics, Exec}
use shimmy_wasm_go.Json.{Map}
use shimmy_wasm_go.Execution.Wasm.Adapter.{Guest, Spelling}
use shimmy_wasm_go.Execution.Wasm.Adapter

-- `wasmSupervisor`: the instance, with its adapter, and the snapshot of its memory
pub record WasmSupervisor (G : Type 0) : Type 0 where
  pub instance_of : Option G
  pub snapshot : Option Bytes

-- `newWasmSupervisor`
abbrev pub new : {G : Type 0} → WasmSupervisor G
new = record { instance_of = none; snapshot = none }

module _ {G : Type 0} (guest : Guest G) (json : Spelling) where
  abbrev Act : Type 0 → Type 0
  Act A = Exec Error (WasmSupervisor G) A

  -- `takeSnapshot`: the memory as a whole, or nil where there is none
  unfoldable pub take_snapshot : G → Result Error (Option Bytes)
  take_snapshot g =
      if guest.has_memory
      then if guest.size g == 0 then ok none else elim (guest.read g zero (guest.size g)) [
        | some b ↦ ok (some b)
        | none ↦ err (message "wasm: could not read the linear memory")
      ]
      else ok none

  abbrev snapped :
      WasmSupervisor G
      → G
      → Result Error (Option Bytes)
      → Result Error (Unit {0}) × WasmSupervisor G
  snapped s g (ok b) = (ok tt, record { instance_of = some g; snapshot = b })
  snapped s g (err e) = (err (wrap "wasm: snapshot memory" e), record s { instance_of = none })
  snapped s g panics = (panics, record s { instance_of = some g })

  -- `Start`, for what the runtime's `InstantiateModule` returns
  unfoldable pub start : Result Error G → Act (Unit {0})
  unfolding take_snapshot
  start made s = elim s.instance_of [
    | some g ↦ (ok tt, s)
    | none ↦ elim made [
      | ok g ↦ snapped s g (take_snapshot g)
      | err e ↦ (err (wrap "wasm: instantiate module" e), s)
      | panics ↦ (panics, s)
    ]
  ]

  -- `restoreSnapshot`: the memory behind it, which stays as it is after an error
  unfoldable pub restore_snapshot : Option Bytes → G → G
  restore_snapshot none g = g
  restore_snapshot (some b) g =
      if guest.has_memory then elim (guest.write g zero b) [ some h ↦ h | none ↦ g ] else g

  -- the restore runs behind a result or an error; a panic passes it by
  abbrev sent : WasmSupervisor G → Result Error Map × G → Result Error Map × WasmSupervisor G
  sent s (panics, g) = (panics, record s { instance_of = some g })
  sent s (ok m, g) = (ok m, record s { instance_of = some (restore_snapshot s.snapshot g) })
  sent s (err e, g) = (err e, record s { instance_of = some (restore_snapshot s.snapshot g) })

  -- `Send`
  unfoldable pub send : String → Map → Act Map
  unfolding restore_snapshot Adapter.send
  send method m s = elim s.instance_of [
    | none ↦ (err (message "wasm: supervisor not started"), s)
    | some g ↦ sent s (Adapter.send guest json method m g)
  ]

  abbrev closed :
      WasmSupervisor G → Result Error (Unit {0}) × G → Result Error (Unit {0}) × WasmSupervisor G
  closed s (ok _, g) = (ok tt, record { instance_of = none; snapshot = none })
  closed s (err e, g) = (err (wrap "wasm: close module" e), record s { instance_of = some g })
  closed s (panics, g) = (panics, record s { instance_of = some g })

  -- `Shutdown`
  unfoldable pub shut_down : Act (Unit {0})
  shut_down s = elim s.instance_of [ none ↦ (ok tt, s) | some g ↦ closed s (guest.close g) ]
