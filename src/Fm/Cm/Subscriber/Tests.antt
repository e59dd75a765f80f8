-- ===== src/Fm/Cm/Subscriber/Tests.antt =====
-- One event on its way.
use dash_fabric.Base.{ℕ, refl, false, List, [], ◌∷◌, some, Bytes, bytes, arith}
use dash_fabric.Fm.Cm.Subscriber.{
  listening, forwarding, Subscriber, update, new_subscriber, Reach, here, onward, answer, forward,
  read,
}
use dash_fabric.Fm.Cm.Subscriber.Order.{InOrder, Reach-InOrder}

abbrev topics : List Bytes
topics = bytes "/vnets/" ∷ []

-- Two events are reported, and one of them is read.
abbrev one_read : Subscriber ℕ
one_read = record {
  topics = topics;
  phase = update (update (λ i. listening) 0 (forwarding 7 (8 ∷ []))) 0 (forwarding 8 []);
  event_ch = [];
  stop_closed = false;
  ctx_done = false;
  reported = (0, 7) ∷ (0, 8) ∷ [];
  delivered = (0, 7) ∷ [];
}

reads_one : Reach (new_subscriber topics) (some one_read)
unfolding new_subscriber
reads_one =
    onward
      (onward (onward here (answer 0 (7 ∷ 8 ∷ []) (omega arith) refl))
        (forward 0 7 (8 ∷ []) refl (omega arith)))
      (read 0 7 [] refl)

Reach-InOrder_example : InOrder one_read
Reach-InOrder_example = Reach-InOrder topics reads_one
