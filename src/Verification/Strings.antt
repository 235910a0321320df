-- ===== src/Verification/Strings.antt =====
-- The short strings that two honest ends show.
use nheko_library.Base.{
  ℕ, String, List, [], ◌∷◌, ◌≡◌, ◌⊎◌, ◌≢◌, some, true, false, arith, eq_iff, concat,
}
use nheko_library.Verification.Message.{Header, SasMethod}
use nheko_library.Verification.Env.{Env}
use nheko_library.Verification.Flow.{
  Flow, State, compare_emoji, compare_number, failed, set_state, send,
}
use nheko_library.Verification.Outgoing.{send_verification_key}
use nheko_library.Verification.Incoming.{
  names_other, sas_info, show_sas, key_received, awaits_key, handle_key,
}
use nheko_library.Verification.Glare.{Ends}

-- What the user is shown for a method.
abbrev shown_state : SasMethod → State
shown_state SasMethod.emoji = compare_emoji
shown_state SasMethod.decimal = compare_number
shown_state SasMethod.unsupported = failed

abbrev strings : Env → SasMethod → String → String → List ℕ
strings env SasMethod.emoji k info = env.emoji_bytes (some k) info
strings env SasMethod.decimal k info = env.decimal_bytes (some k) info
strings env SasMethod.unsupported k info = []

-- `accept` brought a commitment to the key that now comes.
abbrev pub Committed : Env → String → Flow → Type 0
Committed env k f = f.sender ≡ true → f.commitment ≡ env.sha256 (concat (k ∷ f.canonical_json ∷ []))

show_sas-shown :
    (env : Env) (info k : String) (f : Flow)
    → f.method ≢ SasMethod.unsupported
    → f.their_key ≡ some k
    → ((show_sas env info f).state ≡ shown_state f.method)
      × ((show_sas env info f).sas_list ≡ strings env f.method k info)
unfolding show_sas set_state
show_sas-shown env info k f u t = ground arith

send_verification_key-keeps :
    (env : Env) (f : Flow)
    → ((send_verification_key env f).method ≡ f.method)
      × ((send_verification_key env f).their_key ≡ f.their_key)
unfolding send_verification_key send
send_verification_key-keeps env f = ground arith

key_received-shown :
    (env : Env) (k : String) (f : Flow)
    → f.method ≢ SasMethod.unsupported
    → Committed env k f
    → ((key_received env k f).state ≡ shown_state f.method)
      × ((key_received env k f).sas_list ≡ strings env f.method k (sas_info env f k))
unfolding key_received sas_info
key_received-shown env k f u c =
    let g = record f { their_key = some k } in
    let info = sas_info env g k in
    ground (
      arith,
      show_sas-shown env info k g,
      show_sas-shown env info k (send_verification_key env g),
      send_verification_key-keeps env g,
      eq_iff f.commitment (env.sha256 (concat (k ∷ f.canonical_json ∷ []))),
    )

sas_info-agree :
    (a b : Env) (f g : Flow)
    → Ends a b f g
    → f.transaction_id ≡ g.transaction_id
    → f.sender ≡ true
    → g.sender ≡ false
    → sas_info a f b.public_key ≡ sas_info b g a.public_key
unfolding sas_info
sas_info-agree a b f g e t p q = ground arith

-- A flow that waits for the key that is announced to it.
pub record Awaits (env : Env) (h : Header) (k : String) (f : Flow) : Type 0 where
  pub named : names_other env h f ≡ false
  pub waits : awaits_key env f ≡ true
  pub method : f.method ≢ SasMethod.unsupported
  pub committed : Committed env k f

-- Two ends, the one as sender and the other not, that wait for a key and get each other's, with the
-- commitment in order: both go on to compare, in the same state and with the same strings. That the
-- SAS objects make the same strings from one text is what the key agreement of the library is for.
pub handle_key-same_strings :
    (a b : Env) (f g : Flow) (h k : Header)
    → Ends a b f g
    → (f.transaction_id ≡ g.transaction_id) × (f.method ≡ g.method)
    → (f.sender ≡ true) × (g.sender ≡ false)
    → (a.emoji_bytes (some b.public_key) ≡ b.emoji_bytes (some a.public_key))
      × (a.decimal_bytes (some b.public_key) ≡ b.decimal_bytes (some a.public_key))
    → Awaits a h b.public_key f
    → Awaits b k a.public_key g
    → let f' = handle_key a h b.public_key f in
      let g' = handle_key b k a.public_key g in
      (f'.state ≡ g'.state)
      × ((f'.state ≡ compare_emoji) ⊎ (f'.state ≡ compare_number))
      × (f'.sas_list ≡ g'.sas_list)
unfolding handle_key
handle_key-same_strings a b f g h k e t s r nf ng =
    let ours = key_received-shown a b.public_key f nf.method nf.committed in
    let theirs = key_received-shown b a.public_key g ng.method ng.committed in
    let text = sas_info-agree a b f g e t.0 s.0 s.1 in ground (arith, ours, theirs, text, nf, ng)
