-- ===== src/Mqtt/Client/Announcements.antt =====
-- What the listeners of the client send.
use Prim.Native.String.{String}
use mathlib.Core.Path.{subst}
use nightshift_opi.Prelude.{
  ◌≡◌, ◌⊎◌, inl, inr, refl, sym, ap, ◌∙◌, Bool, Bool-cases, true, false, some, List, [], ◌∷◌, ◌++◌,
  arith, ◌≤◌, All, length, append-nil, append_assoc, Option-cases,
}
use nightshift_opi.Domain.Events.{DomainEvent}
use nightshift_opi.Mqtt.Topics
use nightshift_opi.Mqtt.Topics.{TopicBuilder, validate_reply_to}
use nightshift_opi.Mqtt.CommandHandler.{CommandHandler}
use nightshift_opi.Mqtt.Publisher.{Message, state_message, event_message}
use nightshift_opi.Mqtt.Client.{
  Announcement, state_changed, domain_event, MqttClient, event_of, publish, publish_if,
  on_state_changed, on_domain_event, announce, announce_all,
}

-- A message of the client's listeners: a state, which is retained, or an event.
abbrev pub IsAnnouncement : TopicBuilder → Message → Type 0
IsAnnouncement topics m =
    ((m.topic ≡ Topics.state topics) × (m.retain ≡ true))
    ⊎ ((m.topic ≡ Topics.event topics) × (m.retain ≡ false))

-- What a listener's call may do: send one announcement.
abbrev Announces : TopicBuilder → MqttClient → MqttClient → Type 0
Announces topics c c' =
    (c'.handler ≡ c.handler)
    × ((c'.sent ≡ c.sent)
        ⊎ ((m : Message) × IsAnnouncement topics m × (c'.sent ≡ c.sent ++ m ∷ [])))

module _ (accepts : Message → Bool) (topics : TopicBuilder) where
  publish-Announces :
      (m : Message) (c : MqttClient)
      → IsAnnouncement topics m
      → Announces topics c (publish accepts m c)
  unfolding publish
  publish-Announces m c h = elim (Bool-cases (accepts m)) [
    | inl taken ↦ (ground arith, inr (m, h, ground arith))
    | inr lost ↦ (ground arith, inl (ground arith))
  ]

  event_of-IsAnnouncement :
      (event_id : String) (event : DomainEvent) (m : Message)
      → event_of topics event_id event ≡ some m
      → IsAnnouncement topics m
  unfolding event_of event_message
  event_of-IsAnnouncement event_id event m h = ground arith

  announce-Announces :
      (a : Announcement) (c : MqttClient)
      → c.handler.topics ≡ topics
      → Announces topics c (announce accepts a c)
  unfolding announce on_state_changed on_domain_event publish_if state_message
  announce-Announces (state_changed s o) c h =
      let m = state_message c.handler.topics c.node_id s (some o.dashboard) in
      let is : IsAnnouncement topics m = inl (ap Topics.state h, refl) in
      elim (Bool-cases c.has_publisher) [
        | inr gone ↦ (refl, inl (ground arith))
        | inl there ↦
            let asked = record c { handler = record c.handler { orchestrator = o } } in
            let at : (announce accepts (state_changed s o) c).sent
                ≡ (publish accepts m asked).sent =
              ground arith in
            let (kept, step) = publish-Announces m asked is in
            (
              refl,
              subst
                  (λ x.
                    (x ≡ c.sent)
                    ⊎ ((m : Message) × IsAnnouncement topics m × (x ≡ c.sent ++ m ∷ [])))
                  (sym at) step,
            )
      ]
  announce-Announces (domain_event event_id event) c h = elim (Bool-cases c.has_publisher) [
    | inr gone ↦ (ground arith, inl (ground arith))
    | inl there ↦ elim (Option-cases (event_of c.handler.topics event_id event)) [
      | inl none_of ↦ (ground arith, inl (ground arith))
      | inr (m, e) ↦
          let at : announce accepts (domain_event event_id event) c ≡ publish accepts m c =
            ground arith in
          subst (Announces topics c) (sym at) (
            publish-Announces m c (
              event_of-IsAnnouncement event_id event m
                (ap (λ t. event_of t event_id event) (sym h) ∙ e)))
    ]
  ]

  pub announce_all_sent :
      (told : List Announcement) (c : MqttClient)
      → c.handler.topics ≡ topics
      → (ms : List Message) × (length ms ≤ length told)
        × All (IsAnnouncement topics) ms
        × ((announce_all accepts told c).sent ≡ c.sent ++ ms)
  unfolding announce_all
  announce_all_sent [] c h = ([], omega arith, tt, sym (append-nil c.sent))
  announce_all_sent (a ∷ told) c h =
      let (same, step) = announce-Announces a c h in
      let (ms, few, all, added) =
        announce_all_sent told (announce accepts a c)
          (ap (λ (x : CommandHandler). x.topics) same ∙ h) in
      elim step [
        | inl kept ↦ (ms, omega arith, all, added ∙ ap (λ x. x ++ ms) kept)
        | inr (m, is, sent) ↦ (
          m ∷ ms,
          omega arith,
          (is, all),
          added ∙ ap (λ x. x ++ ms) sent ∙ append_assoc c.sent (m ∷ []) ms,
        )
      ]
