-- ===== src/Events/Delivery.antt =====
-- src/events/mod.rs: an event on its way through the bus in memory, and what a consumer has seen.
use luxor.Base.{
  ℕ, suc, subst, ◌+◌, ◌^◌, ◌≤◌, ◌<◌, ◌≡◌, refl, sym, ap, ◌∙◌, false, true, List, [], ◌∷◌, ◌++◌,
  length, take, Result, ok, arith, append_assoc, append-nil,
}
use luxor.Error.{AppError}
use luxor.Events.{EventLog, new_log, record_all, record_event, recent, reverse, event_log_capacity}
use luxor.Events.Recent.{recent-record_all}
use luxor.Events.Envelope.{Event, PublishReceipt, ConsumedEvent, new_envelope}
use luxor.Events.Bus.{MemoryEventBus, Publication, new_bus, publish_memory, publish_all}
use luxor.Events.Consumer.{Turn, RecvResult, event, consume, on_received, handle_log}

module _ {P : Type 0} (trait : Event P) where
  -- The calls, their answers and what goes to the channel, side by side from the given offset on.
  unfoldable pub IsNumbered :
      ℕ
      → List (Publication P)
      → List (Result AppError (PublishReceipt P))
      → List (ConsumedEvent P)
      → Type 0
  IsNumbered n [] [] [] = Unit
  IsNumbered n (c ∷ cs) (a ∷ answers) (e ∷ es) =
      (a ≡ ok record { partition = 0; offset = n; envelope = e.envelope })
      × (e.partition ≡ 0)
      × (e.offset ≡ n)
      × (e.envelope.id ≡ c.id)
      × (e.envelope.key ≡ trait.key c.event)
      × (e.envelope.payload ≡ c.event)
      × IsNumbered (suc n) cs answers es
  IsNumbered n _ _ _ = ⊥

  length-IsNumbered :
      (n : ℕ) (calls : List (Publication P)) (answers : List (Result AppError (PublishReceipt P)))
      (es : List (ConsumedEvent P))
      → IsNumbered n calls answers es
      → length es ≡ length calls
  unfolding IsNumbered
  length-IsNumbered n [] [] [] h = refl
  length-IsNumbered n [] [] (e ∷ es) h = elim h [ ]
  length-IsNumbered n [] (a ∷ answers) es h = elim h [ ]
  length-IsNumbered n (c ∷ cs) [] es h = elim h [ ]
  length-IsNumbered n (c ∷ cs) (a ∷ answers) [] h = elim h [ ]
  length-IsNumbered n (c ∷ cs) (a ∷ answers) (e ∷ es) (_, _, _, _, _, _, h) =
      ap suc (length-IsNumbered (suc n) cs answers es h)

  sent_by :
      (calls : List (Publication P)) (bus : MemoryEventBus P)
      → bus.next_offset + length calls < 2 ^ 64
      → let (answers, last) = publish_all trait calls bus in
        (es : List (ConsumedEvent P)) × (last.sent ≡ bus.sent ++ es)
        × IsNumbered bus.next_offset calls answers es
  unfolding publish_all publish_memory new_envelope IsNumbered
  sent_by [] bus h = ([], sym (append-nil bus.sent), tt)
  sent_by (c ∷ cs) bus h =
      let next = (publish_memory trait c bus).1 in
      let step : next.next_offset ≡ suc bus.next_offset = omega (arith, h) in
      let (es, sent, numbered) = sent_by cs next (omega (arith, step, h)) in
      (
        record {
          partition = 0;
          offset = bus.next_offset;
          consumed_at = c.later;
          envelope = new_envelope trait c.id c.now c.event;
        }
            ∷ es,
        sent ∙ append_assoc bus.sent _ es,
        (
          refl,
          refl,
          refl,
          refl,
          refl,
          refl,
          subst (λ n. IsNumbered n cs (publish_all trait cs next).0 es) step numbered,
        ),
      )

  -- Each call on a new bus is answered with the receipt of its place in the order of the calls.
  pub publish_all-IsNumbered :
      (calls : List (Publication P))
      → length calls ≤ 2 ^ 63
      → let (answers, last) = publish_all trait calls new_bus in
        IsNumbered 0 calls answers last.sent
  unfolding new_bus
  publish_all-IsNumbered calls h =
      let (es, sent, numbered) = sent_by calls new_bus (omega (arith, h)) in
      subst (IsNumbered 0 calls (publish_all trait calls new_bus).0) (sym sent) numbered

module _ {P : Type 0} where
  -- The turns in which the channel gives these events and no shutdown is asked for.
  abbrev pub delivered : List (ConsumedEvent P) → List (Turn P)
  delivered [] = []
  delivered (e ∷ es) = record { requested = false; received = event e } ∷ delivered es

  consume-delivered :
      (es : List (ConsumedEvent P)) (turns : List (Turn P)) (log : EventLog (ConsumedEvent P))
      → consume handle_log (delivered es ++ turns) log
        ≡ consume handle_log turns (record_all es log)
  unfolding consume on_received handle_log record_all
  consume-delivered [] turns log = refl
  consume-delivered (e ∷ es) turns log = consume-delivered es turns (record_event e log)

  -- The turn in which a shutdown has been asked for, whatever the channel has.
  abbrev pub stopping : RecvResult P → Turn P
  stopping received = record { requested = true; received = received }

  -- Of at most 2 ^ 63 events that are published one after the other on a new bus, each is answered by
  -- the receipt of its place, and what reaches the channel carries the same identifier, key, place and
  -- event, in the same order. A consumer that is given all of them before the shutdown is asked for
  -- leaves the newest in the log, newest first, up to the limit asked for and to the hundred that it
  -- holds, and has counted every call.
  pub consume-publish_all :
      (trait : Event P) (calls : List (Publication P)) (limit : ℕ) (late : RecvResult P)
      (more : List (Turn P))
      → length calls ≤ 2 ^ 63
      → let (answers, last) = publish_all trait calls new_bus in
        let log = consume handle_log (delivered last.sent ++ stopping late ∷ more) new_log in
        IsNumbered trait 0 calls answers last.sent
        × (recent limit log ≡ take limit (take event_log_capacity (reverse last.sent)))
        × (log.consumed ≡ length calls)
  unfolding consume
  consume-publish_all trait calls limit late more h =
      let (answers, last) = publish_all trait calls new_bus in
      let numbered = publish_all-IsNumbered trait calls h in
      let (shown, counted) = recent-record_all limit last.sent in
      rw (consume-delivered last.sent (stopping late ∷ more) new_log)
        (numbered, shown, counted ∙ length-IsNumbered trait 0 calls answers last.sent numbered)
