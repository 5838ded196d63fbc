-- ===== src/Targets/Resolved.antt =====
-- What a server makes of the packet of a voice target.
use gumble.Prelude.{
  ℕ, ◌≡◌, ◌∙◌, refl, ap, Bool, false, Option, none, some, List, [], ◌∷◌, ◌++◌, map,
}
use gumble.Version.{or_else}
use gumble.Client.{World, Text}
use gumble.Targets.{
  VoiceTarget, VoiceTargetChannel, Target, user_target, channel_target, optional_group,
  voice_target_packet,
}

-- Whom a whisper goes to: the user of a session, or those of a channel, with its linked channels, its
-- children, and only the members of a group, if these are set.
data Receiver : Type 0 where
  session : ℕ → Receiver
  channel : ℕ → Bool → Bool → Text → Receiver

-- The reading of the protocol: a field that is not set is false, or empty.
abbrev channel_receiver : Target → Option ℕ → List Receiver
channel_receiver t none = []
channel_receiver t (some c) =
    channel c (or_else false t.links) (or_else false t.children) (or_else [] t.group) ∷ []

abbrev receivers : List Target → List Receiver
receivers [] = []
receivers (t ∷ ts) = map session t.session ++ (channel_receiver t t.channel_id ++ receivers ts)

abbrev user_receiver : World → ℕ → Receiver
user_receiver w u = session (w.user_at u).session

abbrev named_receiver : World → VoiceTargetChannel → Receiver
named_receiver w c = channel (w.channel_at c.channel).id c.links c.recursive c.group

group_read : (s : Text) → or_else [] (optional_group s) ≡ s
group_read [] = refl
group_read (c ∷ cs) = refl

receivers-channels :
    (w : World) (cs : List VoiceTargetChannel)
    → receivers (map (channel_target w) cs) ≡ map (named_receiver w) cs
unfolding channel_target
receivers-channels w [] = refl
receivers-channels w (c ∷ cs) = λ i.
    channel (w.channel_at c.channel).id c.links c.recursive (group_read c.group i)
    ∷ receivers-channels w cs i

receivers-users :
    (w : World) (us : List ℕ) (ts : List Target)
    → receivers (map (user_target w) us ++ ts) ≡ map (user_receiver w) us ++ receivers ts
unfolding user_target
receivers-users w [] ts = refl
receivers-users w (u ∷ us) ts = ap (user_receiver w u ∷◌) (receivers-users w us ts)

-- The packet of a voice target carries its id and, as a server reads it, exactly its users and then its
-- channels, in the order in which they were added, each with the flags and the group that it was given.
voice_target_packet-receivers :
    (w : World) (v : VoiceTarget)
    → ((voice_target_packet w v).0 ≡ v.id)
      × (receivers (voice_target_packet w v).1
          ≡ map (user_receiver w) v.users ++ map (named_receiver w) v.channels)
unfolding voice_target_packet
voice_target_packet-receivers w v = (
  refl,
  receivers-users w v.users _
      ∙ ap (map (user_receiver w) v.users ++◌) (receivers-channels w v.channels),
)
