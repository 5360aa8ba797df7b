-- ===== src/Infra/Hub/Delivery.antt =====
-- A message that waits in the hub's channel reaches the connections.
use mathlib.Core.List.{append_assoc, append-nil}
use hivepulse.Prelude.{
  ℕ, ◌+◌, ◌<◌, ◌≡◌, refl, sym, ap, ◌∙◌, String, true, some, List, [], ◌∷◌, ◌++◌, find, length,
  length-append, update, arith, Bool, false, all, if◌then◌else◌,
}
use hivepulse.Infra.Hub.{
  Client, Hub, capacity, has_id, sent, offer, offer_all, take_message, write, write_one,
}

-- `WritePump` goes on for some rounds, whose writes go through or not.
unfoldable pub pump : ℕ → List Bool → Hub → Hub
pump id [] h = h
pump id (went_through ∷ rounds) h = pump id rounds (write_one went_through id h)

find-update :
    (f : Client → Client) (id : ℕ) (c : Client) (cs : List Client)
    → ((c : Client) → (f c).id ≡ c.id)
    → find (has_id id) cs ≡ some c
    → find (has_id id) (update (has_id id) f cs) ≡ some (f c)
find-update f id c [] keeps h = cc
find-update f id c (d ∷ cs) keeps h = ground (arith, find-update f id c cs keeps, keeps d)

sent_id : (went_through : Bool) (b : List String) (c : Client) → (sent went_through b c).id ≡ c.id
sent_id went_through [] c = refl
sent_id true (m ∷ b) c = refl
sent_id false (m ∷ b) c = refl

write_id : (went_through : Bool) (c : Client) → (write went_through c).id ≡ c.id
unfolding write
write_id went_through c =
    elim c.pumping as (λ b. (if b then sent went_through c.buffer c else c).id ≡ c.id) [
      | true ↦ sent_id went_through c.buffer c
      | false ↦ refl
    ]

writes_on :
    (m : String) (b : List String) (c : Client)
    → c.pumping ≡ true
    → c.buffer ≡ m ∷ b
    → write true c ≡ record c { buffer = b; written = c.written ++ m ∷ [] }
unfolding write
writes_on m b c on e =
    ap (λ p. if p then sent true c.buffer c else c) on ∙ ap (λ x. sent true x c) e

offer_id : (m : String) (c : Client) → (offer m c).id ≡ c.id
unfolding offer
offer_id m c = ground arith

find-offer_all :
    (m : String) (id : ℕ) (c : Client) (cs : List Client)
    → find (has_id id) cs ≡ some c
    → find (has_id id) (offer_all m cs) ≡ some (offer m c)
unfolding offer_all
find-offer_all m id c [] h = cc
find-offer_all m id c (d ∷ cs) h = ground (arith, find-offer_all m id c cs, offer_id m d)

-- The client with the id has been sent just these messages, and none wait for it.
abbrev pub HasSent : ℕ → List String → Hub → Type 0
HasSent id messages h =
    (c : Client) × (find (has_id id) h.clients ≡ some c) × (c.buffer ≡ []) × (c.written ≡ messages)

pump-HasSent :
    (b : List String) (rounds : List Bool) (id : ℕ) (c : Client) (h : Hub)
    → length rounds ≡ length b
    → all (λ went_through. went_through) rounds ≡ true
    → c.pumping ≡ true
    → c.buffer ≡ b
    → find (has_id id) h.clients ≡ some c
    → HasSent id (c.written ++ b) (pump id rounds h)
unfolding pump write_one
pump-HasSent [] [] id c h same good on e found = (c, found, e, sym (append-nil c.written))
pump-HasSent [] (r ∷ rounds) id c h same good on e found = absurd (omega arith)
pump-HasSent (m ∷ b) [] id c h same good on e found = absurd (omega arith)
pump-HasSent (m ∷ b) (false ∷ rounds) id c h same good on e found = cc
pump-HasSent (m ∷ b) (true ∷ rounds) id c h same good on e found =
    let c1 : Client = record c { buffer = b; written = c.written ++ m ∷ [] } in
    let found1 : find (has_id id) (write_one true id h).clients ≡ some c1 =
      find-update (write true) id c h.clients (write_id true) found
      ∙ ap some (writes_on m b c on e) in
    rw (← append_assoc c.written (m ∷ []) b)
      (pump-HasSent b rounds id c1 (write_one true id h) (omega arith) good on refl found1)

-- Once the hub has taken up the message that waits first, a client that is in the map, whose pump runs and
-- whose channel has room, gets it: after as many rounds of its pump as there were messages in its channel,
-- and one, if all their writes go through, the connection has been sent those messages, in their order,
-- and then this one, and nothing waits.
pub message_arrives :
    (id : ℕ) (c : Client) (m : String) (rest : List String) (h : Hub) (rounds : List Bool)
    → h.queue ≡ m ∷ rest
    → find (has_id id) h.clients ≡ some c
    → c.registered ≡ true
    → c.pumping ≡ true
    → length c.buffer < capacity
    → length rounds ≡ length c.buffer + 1
    → all (λ went_through. went_through) rounds ≡ true
    → HasSent id (c.written ++ c.buffer ++ m ∷ []) (pump id rounds (take_message h))
unfolding take_message offer
message_arrives id c m rest h rounds queue found here on room enough good =
    let c1 : Client = record c { buffer = c.buffer ++ m ∷ []; since = c.since ++ m ∷ [] } in
    let taken : offer m c ≡ c1 = ground arith in
    let found1 : find (has_id id) (take_message h).clients ≡ some c1 =
      rw queue (find-offer_all m id c h.clients found ∙ ap some taken) in
    rw (append_assoc c.written c.buffer (m ∷ [])) (
      pump-HasSent (c.buffer ++ m ∷ []) rounds id c1 (take_message h)
        (enough ∙ sym (length-append c.buffer (m ∷ []))) good on refl found1)
