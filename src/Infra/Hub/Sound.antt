-- ===== src/Infra/Hub/Sound.antt =====
-- What holds of the hub in every state that its goroutines can reach.
use mathlib.Core.List.{append_assoc, append-nil}
use hivepulse.Prelude.{
  ℕ, ◌≤◌, ◌<◌, ◌≡◌, refl, sym, ap, ◌∙◌, String, Bool, true, false, List, [], ◌∷◌, ◌++◌, All, length,
  length-append, update, ltb, arith, if◌then◌else◌,
}
use hivepulse.Infra.Hub.{
  Client, Hub, capacity, has_id, new_client, dropped, sent, register, leave, unregister, offer,
  offer_all, distribute, take_message, publish, write, write_one, Step, registers, unregisters,
  publishes, takes, writes, Reachable, starts, goes_on,
}

-- The channel of a client is closed once it has left the map, and not before; while it is in the map, it
-- has been sent, or waits for, just the messages since it came, in their order, but for the one whose write
-- failed and ended its pump.
pub record IsSound (c : Client) : Type 0 where
  pub closed_once : c.closings ≡ (if c.registered then 0 else 1)
  pub in_order : c.registered ≡ true → c.written ++ c.lost ++ c.buffer ≡ c.since
  pub lossless : c.pumping ≡ true → c.lost ≡ []
  pub one_lost : length c.lost ≤ 1
  pub bounded : length c.buffer ≤ capacity

dropped-IsSound :
    (c : Client)
    → c.registered ≡ true
    → c.closings ≡ (if c.registered then 0 else 1)
    → length c.buffer ≤ capacity
    → (c.pumping ≡ true → c.lost ≡ [])
    → length c.lost ≤ 1
    → IsSound (dropped c)
dropped-IsSound c here once few lossless one = record {
  closed_once = ground arith;
  in_order = λ e. cc;
  lossless = lossless;
  one_lost = one;
  bounded = few;
}

leave-IsSound : (c : Client) → IsSound c → IsSound (leave c)
unfolding leave
leave-IsSound c s =
    (elim c.registered as (λ b. c.registered ≡ b → IsSound (if b then dropped c else c)) [
      | true ↦ λ here. dropped-IsSound c here s.closed_once s.bounded s.lossless s.one_lost
      | false ↦ λ gone. s
    ])
      refl

-- The history of a client, with one more message.
abbrev noted : String → Client → Client
noted m c = record c { since = c.since ++ m ∷ [] }

abbrev queued : String → Client → Client
queued m c = record c { buffer = c.buffer ++ m ∷ []; since = c.since ++ m ∷ [] }

queued-IsSound :
    (m : String) (c : Client) → length c.buffer < capacity → IsSound c → IsSound (queued m c)
queued-IsSound m c room s = record {
  closed_once = s.closed_once;
  in_order = λ here.
      sym (append_assoc (c.written ++ c.lost) c.buffer (m ∷ []))
      ∙ ap (λ l. l ++ m ∷ []) (s.in_order here);
  lossless = s.lossless;
  one_lost = s.one_lost;
  bounded = omega (arith, length-append c.buffer (m ∷ []));
}

offered-IsSound :
    (m : String) (c : Client)
    → c.registered ≡ true
    → IsSound c
    → IsSound (if ltb (length c.buffer) capacity then queued m c else dropped (noted m c))
offered-IsSound m c here s =
    (elim (ltb (length c.buffer) capacity)
        as (λ b.
          ltb (length c.buffer) capacity ≡ b
          → IsSound (if b then queued m c else dropped (noted m c))) [
            | true ↦ λ room. queued-IsSound m c (ground arith) s
            | false ↦ λ full.
                dropped-IsSound (noted m c) here s.closed_once s.bounded s.lossless s.one_lost
          ])
      refl

offer-IsSound : (m : String) (c : Client) → IsSound c → IsSound (offer m c)
unfolding offer
offer-IsSound m c s =
    (elim c.registered
        as (λ b.
          c.registered ≡ b
          → IsSound (
              if b
              then (if ltb (length c.buffer) capacity then queued m c else dropped (noted m c))
              else c)) [ true ↦ λ here. offered-IsSound m c here s | false ↦ λ gone. s ])
      refl

-- As long as nothing is lost, what waits comes right after what was sent.
whole :
    (c : Client) (b : List String)
    → c.lost ≡ []
    → c.buffer ≡ b
    → c.written ++ c.lost ++ c.buffer ≡ c.since
    → c.written ++ b ≡ c.since
whole c b nothing e h =
    ap (λ l. c.written ++ l) (sym e)
    ∙ ap (λ l. l ++ c.buffer) (sym (append-nil c.written))
    ∙ ap (λ l. c.written ++ l ++ c.buffer) (sym nothing)
    ∙ h

sent-IsSound :
    (went_through : Bool) (b : List String) (c : Client)
    → c.buffer ≡ b
    → c.pumping ≡ true
    → IsSound c
    → IsSound (sent went_through b c)
sent-IsSound went_through [] c e on s = record {
  closed_once = s.closed_once;
  in_order = s.in_order;
  lossless = λ h. s.lossless on;
  one_lost = s.one_lost;
  bounded = s.bounded;
}
sent-IsSound true (m ∷ rest) c e on s = record {
  closed_once = s.closed_once;
  in_order = λ here.
      ap (λ l. c.written ++ m ∷ [] ++ l ++ rest) (s.lossless on)
      ∙ ap (λ l. l ++ rest) (append-nil (c.written ++ m ∷ []))
      ∙ append_assoc c.written (m ∷ []) rest
      ∙ whole c (m ∷ rest) (s.lossless on) e (s.in_order here);
  lossless = s.lossless;
  one_lost = s.one_lost;
  bounded = (let few = s.bounded in let same = ap length e in omega arith);
}
sent-IsSound false (m ∷ rest) c e on s = record {
  closed_once = s.closed_once;
  in_order = λ here.
      ap (λ l. c.written ++ (l ++ m ∷ []) ++ rest) (s.lossless on)
      ∙ append_assoc c.written (m ∷ []) rest
      ∙ whole c (m ∷ rest) (s.lossless on) e (s.in_order here);
  lossless = λ h. cc;
  one_lost = rw (s.lossless on) (omega arith);
  bounded = (let few = s.bounded in let same = ap length e in omega arith);
}

write-IsSound : (went_through : Bool) (c : Client) → IsSound c → IsSound (write went_through c)
unfolding write
write-IsSound went_through c s =
    (elim c.pumping
        as (λ b. c.pumping ≡ b → IsSound (if b then sent went_through c.buffer c else c)) [
          | true ↦ λ on. sent-IsSound went_through c.buffer c refl on s
          | false ↦ λ off. s
        ])
      refl

update-IsSound :
    (p : Client → Bool) (f : Client → Client) (cs : List Client)
    → ((c : Client) → IsSound c → IsSound (f c))
    → All IsSound cs
    → All IsSound (update p f cs)
update-IsSound p f [] keeps s = s
update-IsSound p f (c ∷ cs) keeps (s, rest) =
    elim (p c) as (λ b. All IsSound ((if b then f c else c) ∷ update p f cs)) [
      | true ↦ (keeps c s, update-IsSound p f cs keeps rest)
      | false ↦ (s, update-IsSound p f cs keeps rest)
    ]

offer_all-IsSound : (m : String) (cs : List Client) → All IsSound cs → All IsSound (offer_all m cs)
unfolding offer_all
offer_all-IsSound m [] s = s
offer_all-IsSound m (c ∷ cs) (s, rest) = (offer-IsSound m c s, offer_all-IsSound m cs rest)

-- All clients are sound, and the channel of the hub keeps to its capacity.
pub record IsSafe (h : Hub) : Type 0 where
  pub clients : All IsSound h.clients
  pub bounded : length h.queue ≤ capacity

new-IsSound : (id : ℕ) → IsSound (new_client id)
new-IsSound id = record {
  closed_once = refl;
  in_order = λ e. refl;
  lossless = λ e. refl;
  one_lost = omega arith;
  bounded = omega arith;
}

distribute-IsSafe : (q : List String) (h : Hub) → h.queue ≡ q → IsSafe h → IsSafe (distribute q h)
distribute-IsSafe [] h e s = s
distribute-IsSafe (m ∷ rest) h e s = record {
  clients = offer_all-IsSound m h.clients s.clients;
  bounded = (let few = s.bounded in let same = ap length e in omega arith);
}

publish-IsSafe : (m : String) (h : Hub) → IsSafe h → IsSafe (publish m h)
unfolding publish
publish-IsSafe m h s =
    (elim (ltb (length h.queue) capacity)
        as (λ b.
          ltb (length h.queue) capacity ≡ b
          → IsSafe (if b then record h { queue = h.queue ++ m ∷ [] } else h)) [
            | true ↦ λ room. record {
              clients = s.clients;
              bounded = ground (arith, length-append h.queue (m ∷ []));
            }
            | false ↦ λ full. s
          ])
      refl

moved-IsSafe : (h h' : Hub) → Step h h' → IsSafe h → IsSafe h'
unfolding register unregister take_message write_one
moved-IsSafe _ _ (registers id h fresh) s = record {
  clients = (new-IsSound id, s.clients);
  bounded = s.bounded;
}
moved-IsSafe _ _ (unregisters id h) s = record {
  clients = update-IsSound (has_id id) leave h.clients leave-IsSound s.clients;
  bounded = s.bounded;
}
moved-IsSafe _ _ (publishes m h) s = publish-IsSafe m h s
moved-IsSafe _ _ (takes h) s = distribute-IsSafe h.queue h refl s
moved-IsSafe _ _ (writes went_through id h) s = record {
  clients =
      update-IsSound (has_id id) (write went_through) h.clients (write-IsSound went_through)
        s.clients;
  bounded = s.bounded;
}

-- Whatever order the goroutines take, from a new hub on: the channel of no client is closed twice, nor
-- while the client is in the map; a client in the map whose writes went through has been sent, or waits
-- for, just the messages that the hub took up since it came, in their order and without a gap; if a write
-- failed, its message is the only one missing, and all that waits comes after it; and no channel holds more
-- than its capacity.
pub Reachable-IsSafe : (h : Hub) → Reachable h → IsSafe h
Reachable-IsSafe _ starts = record { clients = tt; bounded = omega arith }
Reachable-IsSafe _ (goes_on h h' before step) = moved-IsSafe h h' step (Reachable-IsSafe h before)
