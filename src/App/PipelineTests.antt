-- ===== src/App/PipelineTests.antt =====
-- threadx-app/cross/app/src/bin/network.rs: a measurement on its way to the broker.
use threadx_rust.App.Startup.{print_text, ScreenApi}
use threadx_rust.App.Screen.{send_next, printing_turn-Reaches, printing_turn}
use threadx_rust.App.Payload.{pos, ℤ, Event, event_bytes}
use threadx_rust.Executor.{World, on_kernel}
use threadx_rust.Base.{ℕ, suc, true, false, Option, ◌≡◌, refl, ok, some, List, [], ◌∷◌, ◌++◌, map}
use threadx_rust.App.TurnTests.{
  client, Kernel, os, threads, queues, contract, executor, before, behind, measured,
}
use threadx_rust.Queue.{send, receive, QueueReceiver}
use threadx_rust.Uprotocol.Transport.{poll, is_connected}
use threadx_rust.App.{measure_turn, send_future}
use threadx_rust.Thread.{sleep}
use threadx_rust.Call.{tx_checked_call, tx_checked_call_no_log}
use threadx_rust.Uprotocol.Transport
use threadx_rust.Executor.{block_on, lock_signals, unlock_signals, position_unused}
use threadx_rust.App.Pipeline.{measure, Reach, here, next}
use threadx_rust.App.InTransit.{Supply, measurements_carried}
use threadx_rust.App.Turns.{Reaches, between}

abbrev temperature_x8 : Kernel → Option ℤ × Kernel
temperature_x8 k = (some (pos 205), k)

supply : Supply contract temperature_x8
supply = record { accepted = λ e k. refl; sensed = λ k. refl }

-- Nothing is in the queue yet.
abbrev fresh : World Kernel
fresh = record before { kernel = (λ i. false, ([], [])) }

measured_first :
    on_kernel
      (measure_turn threads queues os.flags 100 temperature_x8 (record { sender_ptr = 7 }))
      fresh
    ≡ (ok tt, before)
unfolding measure_turn send sleep tx_checked_call
measured_first = refl

to_before :
    Reach contract os.flags temperature_x8 100
      (λ w. w)
      executor
      (between [] fresh)
      (between (measured ∷ []) before)
to_before = next here (measure refl measured_first)

-- A display is the number of texts that it has shown.
abbrev screen : ScreenApi ℕ Kernel
screen = record { clear_buffer = λ d. d; draw = λ t d. (true, suc d); flush = λ d k. (true, d, k) }

abbrev recv : QueueReceiver
recv = record { receiver_ptr = 7 }

printed :
    printing_turn os threads queues client screen 100 (λ w. w) executor recv 0 before
    ≡ (ok 1, behind)
unfolding printing_turn send_next print_text poll is_connected receive sleep tx_checked_call
    tx_checked_call_no_log block_on lock_signals position_unused unlock_signals send_future
    Transport.send
printed = refl

printing_turn-Reaches_example :
    Reaches contract os.flags temperature_x8 100
      (λ w. w)
      executor
      (between (measured ∷ []) before)
      (measured ∷ [])
      behind
printing_turn-Reaches_example =
    printing_turn-Reaches contract screen (λ d k. refl) os.flags temperature_x8 100 (λ w. w)
      executor (between (measured ∷ []) before) (measured ∷ []) 0 here printed

-- The measurement has been published.
measurements_carried_example :
    (published : List Event) × (behind.kernel.1.1 ≡ map event_bytes published)
    × (measured ∷ [] ≡ published ++ ([] ++ behind.kernel.1.0))
measurements_carried_example = measurements_carried contract supply refl (
    printing_turn-Reaches contract screen (λ d k. refl) os.flags temperature_x8 100 (λ w. w)
      executor (between [] fresh) (measured ∷ []) 0 to_before printed)

-- The measuring thread takes a measurement during the first sleep.
abbrev meanwhile : List (World Kernel → World Kernel)
meanwhile = measures ∷ (λ w. w) ∷ (λ w. w) ∷ []
  where
    measures : World Kernel → World Kernel
    measures w =
        (on_kernel
          (measure_turn threads queues os.flags 100 temperature_x8 (record { sender_ptr = 7 })) w).1
