-- ===== src/Verification/Glare.antt =====
-- Both sides send `start` at the same time. The comparison of user and device ids leaves one of them
-- the sender, and both with the JSON of that side's message.
use nheko_library.Base.{String, ◌≡◌, ◌≢◌, true, false, not, arith, any_of}
use nheko_library.Base.Text.{str_lt_asymm, str_lt_total, str_lt_irrefl}
use nheko_library.Verification.Message
use nheko_library.Verification.Message.{Header, Content}
use nheko_library.Verification.Env.{Env}
use nheko_library.Verification.Flow.{Flow, set_state, send}
use nheko_library.Verification.Outgoing.{accept_verification_request}
use nheko_library.Verification.Incoming.{
  pair_lt, names_this, known_protocol, is_emoji, is_sas_v1, loses_glare, resolve_glare,
  accept_unless_prompt, start_accepted, handle_start,
}

pair_lt-not : (a b c d : String) → (a ≡ c → b ≢ d) → pair_lt a b c d ≡ not (pair_lt c d a b)
pair_lt-not a b c d h = ground (
  arith,
  str_lt_asymm a c,
  str_lt_asymm c a,
  str_lt_total a c,
  str_lt_asymm b d,
  str_lt_asymm d b,
  str_lt_total b d,
  h,
  str_lt_irrefl a,
  str_lt_irrefl c,
)

-- The two ends of one verification: each knows the other, and they are not the same device.
pub record Ends (a b : Env) (f g : Flow) : Type 0 where
  pub other_of_f : f.to_client ≡ b.user_id
  pub device_of_f : f.device_id ≡ b.device_id
  pub other_of_g : g.to_client ≡ a.user_id
  pub device_of_g : g.device_id ≡ a.device_id
  pub distinct : a.user_id ≡ b.user_id → a.device_id ≢ b.device_id

-- A `start` that the other side sent and that the flow can work with.
pub record Offers (env : Env) (h : Header) (s : Message.Start) (f : Flow) : Type 0 where
  pub named : names_this env h f ≡ true
  pub protocol : known_protocol env s ≡ true
  pub strings : any_of is_emoji s.short_authentication_string ≡ true
  pub method : is_sas_v1 s.method ≡ true

accept_unless_prompt-keeps :
    (env : Env) (f : Flow)
    → ((accept_unless_prompt env f).sender ≡ f.sender)
      × ((accept_unless_prompt env f).canonical_json ≡ f.canonical_json)
unfolding accept_unless_prompt accept_verification_request set_state send
accept_unless_prompt-keeps env f = ground arith

abbrev json : Env → Header → Message.Start → String
json env h s = env.dump (record { header = h; content = Content.start s })

-- A sender that gets a `start` itself.
handle_start-glare :
    (env : Env) (h : Header) (s : Message.Start) (f : Flow)
    → f.sender ≡ true
    → Offers env h s f
    → ((handle_start env h s f).sender ≡ not (loses_glare env f))
      × ((loses_glare env f ≡ true) → (handle_start env h s f).canonical_json ≡ json env h s)
      × ((loses_glare env f ≡ false) → (handle_start env h s f).canonical_json ≡ f.canonical_json)
unfolding handle_start start_accepted resolve_glare loses_glare
handle_start-glare env h s f p o = grind (arith, accept_unless_prompt-keeps)

-- Two flows that have each sent `start`, and then each get the other's, agree: exactly one of them is
-- the sender afterwards, the one with the smaller pair of user and device id, and both hold the same
-- `canonical_json`. The ends are distinct devices that know each other, and each takes the JSON
-- of the received message to be what the other side kept of the sent one.
pub handle_start-agree :
    (a b : Env) (f g : Flow) (h k : Header) (s t : Message.Start)
    → Ends a b f g
    → f.sender ≡ true
    → g.sender ≡ true
    → Offers a k t f
    → Offers b h s g
    → f.canonical_json ≡ json b h s
    → g.canonical_json ≡ json a k t
    → ((handle_start a k t f).sender ≡ pair_lt a.user_id a.device_id b.user_id b.device_id)
      × ((handle_start b h s g).sender ≡ not (handle_start a k t f).sender)
      × ((handle_start a k t f).canonical_json ≡ (handle_start b h s g).canonical_json)
unfolding loses_glare
handle_start-agree a b f g h k s t e p q o o' j j' = ground (
  arith,
  handle_start-glare a k t f p o,
  handle_start-glare b h s g q o',
  pair_lt-not a.user_id a.device_id b.user_id b.device_id e.distinct,
)
