-- ===== src/Infra/Hub.antt =====
-- internal/infrastructure/websocket_hub.go: the goroutine of `Hub.Run`, the clients with their channels,
-- and their `WritePump`s. The clients of tests are left out.
pub mod Sound
pub mod Delivery
use hivepulse.Prelude.{
  ℕ, ◌+◌, ◌≡◌, String, Bool, true, false, Option, none, some, List, [], ◌∷◌, ◌++◌, any, length,
  update, map, eqb, ltb, if◌then◌else◌,
}

-- A client: whether it is in `h.clients`, what its channel `send` holds, how often that has been closed,
-- what `WritePump` has sent to the connection, and whether it still runs. Two fields are histories:
-- `lost` has the message whose write failed, and `since` those that the hub has taken up while the client
-- was in the map.
pub record Client : Type 0 where
  pub id : ℕ
  pub registered : Bool
  pub buffer : List String
  pub closings : ℕ
  pub written : List String
  pub pumping : Bool
  pub lost : List String
  pub since : List String

-- The channel `broadcast`, and all the clients that were ever made.
pub record Hub : Type 0 where
  pub queue : List String
  pub clients : List Client

-- `NewHub`
abbrev pub new_hub : Hub
new_hub = record { queue = []; clients = [] }

-- The capacity of a client's channel; that of `broadcast` is the same.
abbrev pub capacity : ℕ
capacity = 256

abbrev pub has_id : ℕ → Client → Bool
has_id id c = eqb c.id id

-- `NewClient`, and `h.clients[client] = true`.
abbrev pub new_client : ℕ → Client
new_client id = record {
  id = id;
  registered = true;
  buffer = [];
  closings = 0;
  written = [];
  pumping = true;
  lost = [];
  since = [];
}

unfoldable pub register : ℕ → Hub → Hub
register id h = record h { clients = new_client id ∷ h.clients }

-- `delete(h.clients, client)` and `close(client.send)`.
abbrev pub dropped : Client → Client
dropped c = record c { registered = false; closings = c.closings + 1 }

-- The case of `h.unregister`: a client that is not in the map is let be.
unfoldable pub leave : Client → Client
leave c = if c.registered then dropped c else c

unfoldable pub unregister : ℕ → Hub → Hub
unregister id h = record h { clients = update (has_id id) leave h.clients }

-- A message for a client: it goes into the channel, or the client is dropped if that is full.
unfoldable pub offer : String → Client → Client
offer message c =
    if c.registered
    then (if ltb (length c.buffer) capacity
        then record c { buffer = c.buffer ++ message ∷ []; since = c.since ++ message ∷ [] }
        else dropped (record c { since = c.since ++ message ∷ [] }))
    else c

unfoldable pub offer_all : String → List Client → List Client
offer_all message [] = []
offer_all message (c ∷ cs) = offer message c ∷ offer_all message cs

-- The case of `h.broadcast`.
abbrev pub distribute : List String → Hub → Hub
distribute [] h = h
distribute (message ∷ rest) h = record { queue = rest; clients = offer_all message h.clients }

unfoldable pub take_message : Hub → Hub
unfolding offer_all
take_message h = distribute h.queue h

-- `Hub.Broadcast`: a message that finds the channel full is dropped.
unfoldable pub publish : String → Hub → Hub
publish message h =
    if ltb (length h.queue) capacity then record h { queue = h.queue ++ message ∷ [] } else h

-- One round of `WritePump` on what the channel holds. A write that fails ends it, and the message is lost.
-- An empty channel ends it once it is closed, and blocks it before. The deferred `unregister` is a step of
-- its own.
abbrev pub sent : Bool → List String → Client → Client
sent went_through [] c = record c { pumping = eqb c.closings 0 }
sent true (message ∷ rest) c = record c { buffer = rest; written = c.written ++ message ∷ [] }
sent false (message ∷ rest) c = record c {
  buffer = rest;
  pumping = false;
  lost = c.lost ++ message ∷ [];
}

unfoldable pub write : Bool → Client → Client
write went_through c = if c.pumping then sent went_through c.buffer c else c

unfoldable pub write_one : Bool → ℕ → Hub → Hub
write_one went_through id h = record h {
  clients = update (has_id id) (write went_through) h.clients;
}

-- What the goroutines do, in any order. Both pumps of a client may unregister it; a client is registered
-- once, when it is made.
pub data Step : Hub → Hub → Type 0 where
  registers : (id : ℕ) (h : Hub) → any (has_id id) h.clients ≡ false → Step h (register id h)
  unregisters : (id : ℕ) (h : Hub) → Step h (unregister id h)
  publishes : (message : String) (h : Hub) → Step h (publish message h)
  takes : (h : Hub) → Step h (take_message h)
  writes : (went_through : Bool) (id : ℕ) (h : Hub) → Step h (write_one went_through id h)

pub data Reachable : Hub → Type 0 where
  starts : Reachable new_hub
  goes_on : (h h' : Hub) → Reachable h → Step h h' → Reachable h'
