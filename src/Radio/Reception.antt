-- ===== src/Radio/Reception.antt =====
-- Frames between the driver's callback and the processing thread of src/meshtastic_radio.c.
use meshtastic_zephyr.Prelude.{
  ℕ, ◌+◌, ◌-◌, ◌%◌, ◌^◌, ◌≤◌, ◌<◌, ◌==◌, ltb, ◌≡◌, refl, ap, ◌∙◌, sym, inl, inr, Bool, true, false,
  ◌||◌, List, [], ◌∷◌, ◌++◌, append_assoc, append-nil, Option, none, some, Errno, arith, length,
  length-append, Bool-cases, if◌then◌else◌,
}
use mathlib.Core.Path.{subst}
use meshtastic_zephyr.Packet.{inc32}
use meshtastic_zephyr.Wire.{pkt_max}
use meshtastic_zephyr.Radio.{Radio, RxSlot, Kconfig, rx_cb, turn_on, thread_turn, arm_rx}

-- Some of the items, in the same order.
pub data IsSubseq : List RxSlot → List RxSlot → Type 0 where
  done : IsSubseq [] []
  keep : {x : RxSlot} {xs ys : List RxSlot} → IsSubseq xs ys → IsSubseq (x ∷ xs) (x ∷ ys)
  skip : {y : RxSlot} {xs ys : List RxSlot} → IsSubseq xs ys → IsSubseq xs (y ∷ ys)

keep_last :
    {xs ys : List RxSlot} (x : RxSlot) → IsSubseq xs ys → IsSubseq (xs ++ (x ∷ [])) (ys ++ (x ∷ []))
keep_last x done = keep done
keep_last x (keep s) = keep (keep_last x s)
keep_last x (skip s) = skip (keep_last x s)

skip_last : {xs ys : List RxSlot} (y : RxSlot) → IsSubseq xs ys → IsSubseq xs (ys ++ (y ∷ []))
skip_last y done = skip done
skip_last y (keep s) = keep (skip_last y s)
skip_last y (skip s) = skip (skip_last y s)

-- The driver's callback is called, or the thread turns.
pub data RxOp : Type 0 where
  received : RxSlot → RxOp
  turn : (arm : Option Errno) → RxOp

-- The radio with the frames that were handed to the router, in order.
pub record RxRun : Type 0 where
  pub radio : Radio
  pub handed : List RxSlot

abbrev pub hand_on : Option RxSlot × Radio → RxRun → RxRun
hand_on (none, r) s = record s { radio = r }
hand_on (some slot, r) s = record { radio = r; handed = s.handed ++ (slot ∷ []) }

pub run_op : Kconfig → RxOp → RxRun → RxRun
run_op k (received slot) s = record s { radio = rx_cb k slot s.radio }
run_op k (turn arm) s = hand_on (thread_turn arm s.radio) s

pub run : Kconfig → List RxOp → RxRun → RxRun
run k [] s = s
run k (op ∷ ops) s = run k ops (run_op k op s)

-- The frames of a length that the radio can receive
abbrev pub is_frame : RxSlot → Bool
is_frame slot = if (length slot.buf == 0) || ltb pkt_max (length slot.buf) then false else true

abbrev pub frames_of : List RxOp → List RxSlot
frames_of [] = []
frames_of (received slot ∷ ops) = if is_frame slot then slot ∷ frames_of ops else frames_of ops
frames_of (turn arm ∷ ops) = frames_of ops

-- What a run keeps, where the frames `all` have come in.
pub record Kept (k : Kconfig) (dropped : ℕ) (all : List RxSlot) (s : RxRun) : Type 0 where
  pub in_order : IsSubseq (s.handed ++ s.radio.rx_queue) all
  pub bounded : length s.radio.rx_queue ≤ k.rx_queue_depth
  pub counted :
      s.radio.status.rx_dropped
      ≡ (dropped + (length all - length (s.handed ++ s.radio.rx_queue))) % 2 ^ 32
  pub not_more : length (s.handed ++ s.radio.rx_queue) ≤ length all

-- A frame that is let in, one that is dropped, and one that is handed on
received_in :
    (k : Kconfig) (dropped : ℕ) (all : List RxSlot) (slot : RxSlot) (s : RxRun)
    → length s.radio.rx_queue < k.rx_queue_depth
    → Kept k dropped all s
    → Kept k dropped
        (all ++ (slot ∷ []))
        (record s { radio = record (s.radio) { rx_queue = s.radio.rx_queue ++ (slot ∷ []) } })
received_in k dropped all slot s room v =
    let q = s.radio.rx_queue in
    let one = append_assoc s.handed q (slot ∷ []) in
    let more = length-append all (slot ∷ []) in
    let longer = length-append (s.handed ++ q) (slot ∷ []) in
    record {
      in_order = subst (λ xs. IsSubseq xs (all ++ (slot ∷ []))) one (keep_last slot v.in_order);
      bounded = omega (arith, length-append q (slot ∷ []));
      counted = omega (arith, v.counted, more, longer, ap length one);
      not_more = omega (arith, more, longer, ap length one);
    }

dropped_out :
    (k : Kconfig) (dropped : ℕ) (all : List RxSlot) (slot : RxSlot) (s : RxRun)
    → Kept k dropped all s
    → Kept k dropped (all ++ (slot ∷ [])) (record s {
      radio = record (s.radio) {
        status = record (s.radio.status) { rx_dropped = inc32 s.radio.status.rx_dropped };
      };
    })
dropped_out k dropped all slot s v =
    let more = length-append all (slot ∷ []) in
    record {
      in_order = skip_last slot v.in_order;
      bounded = v.bounded;
      counted = omega (arith, v.counted, more);
      not_more = omega (arith, more);
    }

-- A radio with the same queue and the same count of dropped frames
same_Kept :
    (k : Kconfig) (dropped : ℕ) (all : List RxSlot) (s t : RxRun)
    → t.handed ++ t.radio.rx_queue ≡ s.handed ++ s.radio.rx_queue
    → length t.radio.rx_queue ≤ length s.radio.rx_queue
    → t.radio.status.rx_dropped ≡ s.radio.status.rx_dropped
    → Kept k dropped all s
    → Kept k dropped all t
same_Kept k dropped all s t same fewer count v = record {
  in_order = rw same v.in_order;
  bounded = omega (arith, v.bounded);
  counted = rw same (count ∙ v.counted);
  not_more = rw same v.not_more;
}

idle-Kept :
    (k : Kconfig) (dropped : ℕ) (all : List RxSlot) (arm : Option Errno) (armed : Bool) (s : RxRun)
    → Kept k dropped all s
    → Kept k dropped all (hand_on (if armed then (none, s.radio) else (none, arm_rx arm s.radio)) s)
unfolding arm_rx
idle-Kept k dropped all arm true s v = v
idle-Kept k dropped all none false s v = same_Kept k dropped all s _ refl (omega arith) refl v
idle-Kept k dropped all (some e) false s v = same_Kept k dropped all s _ refl (omega arith) refl v

turn-Kept :
    (k : Kconfig) (dropped : ℕ) (all : List RxSlot) (arm : Option Errno) (q : List RxSlot)
    (s : RxRun)
    → s.radio.rx_queue ≡ q
    → Kept k dropped all s
    → Kept k dropped all (hand_on (turn_on arm q s.radio) s)
unfolding turn_on
turn-Kept k dropped all arm [] s is v = idle-Kept k dropped all arm s.radio.rx_armed s v
turn-Kept k dropped all arm (slot ∷ slots) s is v =
    same_Kept k dropped all s
      (record { radio = record (s.radio) { rx_queue = slots }; handed = s.handed ++ (slot ∷ []) })
      (append_assoc s.handed (slot ∷ []) slots ∙ ap (λ xs. s.handed ++ xs) (sym is))
      (omega (arith, ap length is)) refl v

run_op-Kept :
    (k : Kconfig) (dropped : ℕ) (all : List RxSlot) (op : RxOp) (s : RxRun)
    → Kept k dropped all s
    → Kept k dropped (all ++ frames_of (op ∷ [])) (run_op k op s)
unfolding run_op rx_cb thread_turn
run_op-Kept k dropped all (received slot) s v =
    elim (Bool-cases ((length slot.buf == 0) || ltb pkt_max (length slot.buf))) [
      | inl bad ↦ rw (bad, append-nil) v
      | inr good ↦ elim (Bool-cases (ltb (length s.radio.rx_queue) k.rx_queue_depth)) [
        | inl room ↦ rw (good, room) (received_in k dropped all slot s (ground arith) v)
        | inr full ↦ rw (good, full) (dropped_out k dropped all slot s v)
      ]
    ]
run_op-Kept k dropped all (turn arm) s v =
    rw append-nil (turn-Kept k dropped all arm s.radio.rx_queue s refl v)

frames_of-cons :
    (op : RxOp) (ops : List RxOp) → frames_of (op ∷ ops) ≡ frames_of (op ∷ []) ++ frames_of ops
frames_of-cons (received slot) ops =
    elim (Bool-cases ((length slot.buf == 0) || ltb pkt_max (length slot.buf))) [
      | inl bad ↦ rw bad
      | inr good ↦ rw good
    ]
frames_of-cons (turn arm) ops = refl

run-Kept :
    (k : Kconfig) (dropped : ℕ) (all : List RxSlot) (ops : List RxOp) (s : RxRun)
    → Kept k dropped all s
    → Kept k dropped (all ++ frames_of ops) (run k ops s)
unfolding run
run-Kept k dropped all [] s v = rw append-nil v
run-Kept k dropped all (op ∷ ops) s v =
    rw (frames_of-cons op ops, ← append_assoc all (frames_of (op ∷ [])) (frames_of ops))
      (run-Kept k dropped (all ++ frames_of (op ∷ [])) ops (run_op k op s)
        (run_op-Kept k dropped all op s v))

-- Whatever the order of callbacks and turns of the thread, from an empty queue: the frames handed to
-- the router and those that wait are, in this order, received frames in the order of their reception,
-- no more wait than the queue has room for, and each frame of a valid length that is in neither has
-- been counted as dropped.
pub run_keeps :
    (k : Kconfig) (ops : List RxOp) (r : Radio)
    → r.rx_queue ≡ []
    → r.status.rx_dropped < 2 ^ 32
    → Kept k r.status.rx_dropped (frames_of ops) (run k ops (record { radio = r; handed = [] }))
run_keeps k ops r empty small =
    run-Kept k r.status.rx_dropped [] ops (record { radio = r; handed = [] })
      (record {
        in_order = rw empty done;
        bounded = rw empty (omega arith);
        counted = rw empty (omega arith);
        not_more = rw empty (omega arith);
      })
