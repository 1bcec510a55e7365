-- ===== src/App/Holding.antt =====
-- threadx-app/cross/app/src/bin/network.rs: what the closures of main work on, and that a program on
-- a part of it returns.
use threadx_rust.Base.{ℕ, ◌≡◌, ap, Bool, some, Option, List, Prog, Never, Runs, Outcome}
use threadx_rust.Mutex.{Mutex, Cell}
use threadx_rust.Launch.{StartApi, Memory}
use threadx_rust.Launch.Success.{At}
use threadx_rust.Launch.Locks.{InCell}
use threadx_rust.App.Define.{AppState, on_memory, on_display}
use threadx_rust.Board.{BoardMxAz3166}

module _ {C T Display Sensor Bus F K : Type 0} (api : StartApi C T K) (code : C → ℕ)
    (taken : K → List ℕ) where
  -- The parts that are still on the board, the mutex of the display, the cells that are taken, and
  -- whether the global allocator is ready.
  abbrev pub Holds :
      BoardMxAz3166 Display Sensor Bus
      → Mutex (Option Display)
      → List ℕ
      → Bool
      → AppState Display Sensor Bus F K
      → Type 0
  Holds b m l ready s = (s.board ≡ some b) × (s.display ≡ m) × At api code taken l ready s.memory

  pub on_memory-Runs :
      {A : Type 0} (b : BoardMxAz3166 Display Sensor Bus) (m : Mutex (Option Display))
      {l l' : List ℕ} {ready ready' : Bool} {p : Prog (Memory F K) Never A}
      → Runs (At api code taken l ready) (At api code taken l' ready') p
      → Runs (Holds b m l ready) (Holds b m l' ready') (on_memory p)
  on_memory-Runs {A} b m h = record {
    runs = λ s (x, y, at).
        let (a, w, e, at') = h.runs s.memory at in
        (
          a,
          record s { memory = w },
          ap (λ (r : Outcome Never A × Memory F K). (r.0, record s { memory = r.1 })) e,
          (x, y, at'),
        );
  }

  pub on_display-Runs :
      {A : Type 0} (b : BoardMxAz3166 Display Sensor Bus) {m m' : Mutex (Option Display)}
      (l : List ℕ) (ready : Bool) {p : Prog (Cell (Option Display) K) Never A}
      → Runs (InCell taken m l) (InCell taken m' l) p
      → Runs (Holds b m l ready) (Holds b m' l ready) (on_display p)
  on_display-Runs {A} b l ready h = record {
    runs = λ s (x, y, at).
        let k = s.memory.kernel in
        let (a, c, e, in_cell) =
          h.runs (record { value = s.display; kernel = k.kernel }) (y, at.0) in
        (
          a,
          record s {
            display = c.value;
            memory = record (s.memory) { kernel = record k { kernel = c.kernel } };
          },
          ap
              (λ (r : Outcome Never A × Cell (Option Display) K). (
                r.0,
                record s {
                  display = r.1.value;
                  memory = record (s.memory) { kernel = record k { kernel = r.1.kernel } };
                },
              ))
              e,
          (x, in_cell.0, (in_cell.1, at.1)),
        );
  }
