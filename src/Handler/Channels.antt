-- ===== src/Handler/Channels.antt =====
-- internal/adapter/handler/notification_handler.go. A response is its status and its data; the times in
-- it are not formatted.
pub mod Masks
pub mod Views
use hivepulse.Prelude.{
  ℕ, String, ◌==◌, Bool, true, false, not, ◌||◌, ◌&&◌, Option, none, some, List, [], ◌∷◌,
  if◌then◌else◌,
}
use hivepulse.Domain.{
  Error, Result, ok, err, Time, NotificationChannel, ConfigMap, AssignmentTriggers, Monitor,
}
use hivepulse.World.{World, State}
use hivepulse.Usecase.Notification

-- The body of a request to write a channel, once gin has parsed it.
pub record ChannelWriteRequest : Type 0 where
  pub name : String
  pub kind : String
  pub config : ConfigMap
  pub is_global : Bool
  pub enabled : Option Bool
  pub remind_interval_min : ℕ

pub record ChannelResponse : Type 0 where
  pub id : String
  pub name : String
  pub kind : String
  pub config : ConfigMap
  pub is_global : Bool
  pub enabled : Bool
  pub remind_interval_min : ℕ
  pub created_at : Time

abbrev pub is_secret : String → Bool
is_secret k = k == "secret" || k == "webhook_url"

-- `maskConfig`
unfoldable pub mask_config : ConfigMap → ConfigMap
mask_config [] = []
mask_config ((k, v) ∷ rest) = (k, if is_secret k then "***" else v) ∷ mask_config rest

-- The loop of `Update` that leaves out masked values.
unfoldable pub unmasked : ConfigMap → ConfigMap
unmasked [] = []
unmasked ((k, v) ∷ rest) = let more = unmasked rest in if v == "***" then more else (k, v) ∷ more

-- `toChannelResponse`
unfoldable pub to_channel_response : NotificationChannel → ChannelResponse
to_channel_response ch = record {
  id = ch.id;
  name = ch.name;
  kind = ch.kind;
  config = mask_config ch.config;
  is_global = ch.is_global;
  enabled = ch.enabled;
  remind_interval_min = ch.remind_interval_min;
  created_at = ch.created_at;
}

abbrev responses : List NotificationChannel → List ChannelResponse
responses [] = []
responses (c ∷ cs) = to_channel_response c ∷ responses cs

abbrev list_response : Result (List NotificationChannel) → ℕ × List ChannelResponse
list_response (err e) = (500, [])
list_response (ok l) = (200, responses l)

-- `NotificationHandler.List`
unfoldable pub list : State (ℕ × List ChannelResponse)
list w = let (r, w1) = Notification.list_channels w in (list_response r, w1)

-- The binding of the request: `none` is a body that gin cannot parse.
abbrev bind : Option ChannelWriteRequest → Option ChannelWriteRequest
bind none = none
bind (some req) = if req.name == "" || req.kind == "" then none else some req

abbrev or_true : Option Bool → Bool
or_true none = true
or_true (some b) = b

-- The channel that a request describes.
abbrev pub channel_of : String → ConfigMap → ChannelWriteRequest → NotificationChannel
channel_of id config req = record {
  id = id;
  name = req.name;
  kind = req.kind;
  config = config;
  is_global = req.is_global;
  enabled = or_true req.enabled;
  remind_interval_min = req.remind_interval_min;
  created_at = 0;
  updated_at = 0;
}

abbrev create_response : Result NotificationChannel → ℕ × Option ChannelResponse
create_response (err e) = (400, none)
create_response (ok ch) = (201, some (to_channel_response ch))

abbrev create_bound : Option ChannelWriteRequest → State (ℕ × Option ChannelResponse)
create_bound none w = ((400, none), w)
create_bound (some req) w =
    let (r, w1) = Notification.create_channel (channel_of "" req.config req) w in
    (create_response r, w1)

-- `NotificationHandler.Create`
unfoldable pub create : Option ChannelWriteRequest → State (ℕ × Option ChannelResponse)
create body = create_bound (bind body)

-- The status of an error, or else that of success.
abbrev status_of {ℓ} : {A : Type ℓ} → ℕ → ℕ → Result A → ℕ
status_of bad good (err e) = bad
status_of bad good (ok a) = good

abbrev update_bound : String → Option ChannelWriteRequest → State ℕ
update_bound id none w = (400, w)
update_bound id (some req) w =
    let (r, w1) = Notification.update_channel (channel_of id (unmasked req.config) req) w in
    (status_of 400 200 r, w1)

-- `NotificationHandler.Update`
unfoldable pub update_channel : String → Option ChannelWriteRequest → State ℕ
update_channel id body = update_bound id (bind body)

-- `NotificationHandler.Delete`
unfoldable pub delete : String → State ℕ
delete id w = let (r, w1) = Notification.delete_channel id w in (status_of 500 204 r, w1)

abbrev triggers_bound : String → String → Option AssignmentTriggers → State ℕ
triggers_bound monitor channel none w = (400, w)
triggers_bound monitor channel (some t) w =
    let (r, w1) = Notification.update_assignment_triggers monitor channel t w in
    (status_of 500 200 r, w1)

-- `NotificationHandler.UpdateAssignmentTriggers`
unfoldable pub update_assignment_triggers : String → String → Option AssignmentTriggers → State ℕ
update_assignment_triggers monitor channel body = triggers_bound monitor channel body

-- `NotificationHandler.AssignChannel`
unfoldable pub assign_channel : String → String → State ℕ
assign_channel monitor channel w =
    let (r, w1) = Notification.assign_channel monitor channel w in (status_of 400 201 r, w1)

-- `NotificationHandler.UnassignChannel`
unfoldable pub unassign_channel : String → String → State ℕ
unassign_channel monitor channel w =
    let (r, w1) = Notification.unassign_channel monitor channel w in (status_of 500 204 r, w1)
