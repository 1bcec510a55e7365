-- ===== src/Demos/InOrder.antt =====
-- threadx-app/cross/app/src/bin/queue.rs: the numbers are printed in order.
use threadx_rust.Time.{from_millis, ticks}
use mathlib.Core.List.{map-append, append_assoc}
use threadx_rust.Base.{
  get_elem?, length, get_elem?-snoc, get_elem?-append, length-append, refl, sym, false, ◌∙◌, true,
  ap, inr, inl, map, Option-cases, ℕ, zero, suc, ◌%◌, ◌^◌, ◌≡◌, Bool, some, List, [], ◌∷◌, ◌++◌, ok,
  arith,
}
use threadx_rust.Sys
use threadx_rust.Call.{tx_checked_call_no_log, wait_code, tx_checked_call}
use threadx_rust.Thread.{sleep, ThreadApi}
use threadx_rust.Queue.{QueueApi}
use threadx_rust.Allocator.{add_usize}
use threadx_rust.Demos.Queue.{
  print_event, Event, info, Line, rx_info, send_count, rest_second, receive_turn,
}

-- What ThreadX documents of a queue whose calls wait: a send that succeeds has appended its
-- message, a receive that succeeds has taken the first one, and a sleep touches no queue.
pub record Contract {K : Type 0} (queues : QueueApi K Event) (threads : ThreadApi K) (queue_ptr : ℕ)
    : Type 0 where
  pub view : K → List Event
  pub sent :
      (k : K) (m : Event)
      → (queues.tx_queue_send queue_ptr m Sys.tx_wait_forever k).0 ≡ Sys.tx_success
      → view (queues.tx_queue_send queue_ptr m Sys.tx_wait_forever k).2 ≡ view k ++ m ∷ []
  pub received :
      (k : K)
      → (queues.tx_queue_receive queue_ptr Sys.tx_wait_forever k).0 ≡ Sys.tx_success
      → let (ret, m, k') = queues.tx_queue_receive queue_ptr Sys.tx_wait_forever k in
        view k ≡ m ∷ view k'
  pub slept : (n : ℕ) (k : K) → view (threads.tx_thread_sleep n k).2 ≡ view k

-- The kernel, the variable `count` of the first thread, and what the second has printed.
pub record System (K : Type 0) : Type 0 where
  pub kernel : K
  pub count : ℕ
  pub printed : List Line

module _ {K : Type 0} (queues : QueueApi K Event) (threads : ThreadApi K)
    (ticks_per_second queue_ptr : ℕ) (checks : Bool) where
  -- A step of one of the two threads that does not panic. A call that waits is a step when it
  -- returns.
  pub data Step (s : System K) : System K → Type 0 where
    sends :
        {count : ℕ} {k : K}
        → send_count queues checks (record { sender_ptr = queue_ptr }) s.count s.kernel
          ≡ (ok count, k)
        → Step s (record { kernel = k; count = count; printed = s.printed })
    rests :
        {k : K}
        → rest_second threads ticks_per_second s.kernel ≡ (ok tt, k)
        → Step s (record s { kernel = k })
    receives :
        {line : Line} {k : K}
        → receive_turn queues (record { receiver_ptr = queue_ptr }) s.kernel ≡ (ok line, k)
        → Step s (record { kernel = k; count = s.count; printed = s.printed ++ line ∷ [] })

  pub data Reach (s : System K) : System K → Type 0 where
    here : Reach s s
    next : {t u : System K} → Reach s t → Step t u → Reach s u

-- The lines of the first `n` numbers, as `u32`.
abbrev pub numbered : ℕ → List Line
numbered zero = []
numbered (suc n) = numbered n ++ rx_info (suc n % 2 ^ 32) ∷ []

length-numbered : (n : ℕ) → length (numbered n) ≡ n
length-numbered zero = refl
length-numbered (suc n) =
    let last = rx_info (suc n % 2 ^ 32) ∷ [] in
    omega (arith, length-append (numbered n) last, length-numbered n)

numbered_at :
    (n i : ℕ) {line : Line} → get_elem? (numbered n) i ≡ some line → line ≡ rx_info (suc i % 2 ^ 32)
numbered_at zero i h = absurd (ground arith)
numbered_at (suc n) i h = elim (get_elem?-snoc (numbered n) (rx_info (suc n % 2 ^ 32)) i h) [
  | inl g ↦ numbered_at n i g
  | inr (e, l) ↦ l ∙ ap (λ m. rx_info (suc m % 2 ^ 32)) (sym (e ∙ length-numbered n))
]

count-next :
    (checks : Bool) (count n : ℕ) {next : ℕ}
    → count ≡ suc n % 2 ^ 32
    → add_usize checks count 1 ≡ some next
    → next ≡ suc (suc n) % 2 ^ 32
unfolding add_usize
count-next true count n h p = ground arith
count-next false count n h p = ground arith

module _ {K : Type 0} {queues : QueueApi K Event} {threads : ThreadApi K} {queue_ptr : ℕ}
    (c : Contract queues threads queue_ptr) where
  send_count-post :
      (checks : Bool) (k : K) (count : ℕ) {next : ℕ} {k' : K}
      → send_count queues checks (record { sender_ptr = queue_ptr }) count k ≡ (ok next, k')
      → (c.view k' ≡ c.view k ++ info count ∷ []) × (add_usize checks count 1 ≡ some next)
  unfolding send_count tx_checked_call wait_code
  send_count-post checks k count h = ground (arith, c.sent k (info count))

  rest_second-post :
      (ticks_per_second : ℕ) (k : K) {k' : K}
      → rest_second threads ticks_per_second k ≡ (ok tt, k')
      → c.view k' ≡ c.view k
  unfolding rest_second sleep tx_checked_call
  rest_second-post ticks_per_second k h =
      elim (Option-cases (ticks ticks_per_second (from_millis 1000))) [
        | inl e ↦ absurd (ground arith)
        | inr (n, e) ↦ ground (arith, c.slept n k)
      ]

  receive_turn-post :
      (k : K) {line : Line} {k' : K}
      → receive_turn queues (record { receiver_ptr = queue_ptr }) k ≡ (ok line, k')
      → (m : Event) × (c.view k ≡ m ∷ c.view k') × (line ≡ print_event m)
  unfolding receive_turn tx_checked_call_no_log wait_code
  receive_turn-post k h =
      let (ret, m, k') = queues.tx_queue_receive queue_ptr Sys.tx_wait_forever k in
      (m, ground (arith, c.received k), ground arith)

  -- The numbers that are printed, and those that still lie in the queue, are the first ones.
  record Inv (s : System K) : Type 0 where
    sent_count : ℕ
    counted : s.count ≡ suc sent_count % 2 ^ 32
    in_order : s.printed ++ map print_event (c.view s.kernel) ≡ numbered sent_count

  module _ (ticks_per_second : ℕ) (checks : Bool) where
    Step-Inv :
        {s t : System K} → Step queues threads ticks_per_second queue_ptr checks s t → Inv s → Inv t
    unfolding print_event
    Step-Inv {s} (sends {count} {k} p) h =
        let (v, n) = send_count-post checks s.kernel s.count p in
        record {
          sent_count = suc h.sent_count;
          counted = count-next checks s.count h.sent_count h.counted n;
          in_order =
              ap (λ l. s.printed ++ map print_event l) v
              ∙ ap (λ l. s.printed ++ l)
                  (map-append print_event (c.view s.kernel) (info s.count ∷ []))
              ∙ sym (
                  append_assoc s.printed (map print_event (c.view s.kernel)) (rx_info s.count ∷ []))
              ∙ ap (λ l. l ++ rx_info s.count ∷ []) h.in_order
              ∙ ap (λ x. numbered h.sent_count ++ rx_info x ∷ []) h.counted;
        }
    Step-Inv {s} (rests p) h = record {
      sent_count = h.sent_count;
      counted = h.counted;
      in_order = rw (rest_second-post ticks_per_second s.kernel p) h.in_order;
    }
    Step-Inv {s} (receives {line} {k} p) h =
        let (m, v, l) = receive_turn-post s.kernel p in
        record {
          sent_count = h.sent_count;
          counted = h.counted;
          in_order =
              append_assoc s.printed (line ∷ []) (map print_event (c.view k))
              ∙ ap (λ x. s.printed ++ x ∷ map print_event (c.view k)) l
              ∙ sym (ap (λ xs. s.printed ++ map print_event xs) v)
              ∙ h.in_order;
        }

    Reach-Inv :
        {s t : System K}
        → Inv s
        → Reach queues threads ticks_per_second queue_ptr checks s t
        → Inv t
    Reach-Inv h here = h
    Reach-Inv h (next r st) = Step-Inv st (Reach-Inv h r)

    -- From an empty queue and `count` at 1, in whatever order the two threads take their turns and
    -- with or without overflow checks: the line printed at place `i`, from 0, is the number
    -- `i + 1`, as a `u32`, so no number is lost, repeated or out of order.
    pub printed_in_order :
        {k : K} {s : System K}
        → c.view k ≡ []
        → Reach queues threads ticks_per_second queue_ptr checks
            (record { kernel = k; count = 1; printed = [] })
            s
        → (i : ℕ) {line : Line} → get_elem? s.printed i ≡ some line
        → line ≡ rx_info (suc i % 2 ^ 32)
    printed_in_order {k} {s} empty r i g =
        let h =
          Reach-Inv
            (record {
              sent_count = 0;
              counted = refl;
              in_order = ap (λ l. map print_event l) empty;
            })
            r in
        numbered_at h.sent_count i (
          sym (ap (λ l. get_elem? l i) h.in_order)
          ∙ get_elem?-append s.printed (map print_event (c.view s.kernel)) i g)
