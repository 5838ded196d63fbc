-- ===== src/Client/Stats/Safety.antt =====
-- How handleUserStats ends.
use gumble.Prelude.{ℕ, ◌≡◌, ◌≢◌, ◌∙◌, refl, false, Option, none, some}
use gumble.Map
use gumble.Client.{Client, Bytes, UserStatsUdp}
use gumble.Client.Monad.{
  M, ◌>>=◌, pure, panic, panicked, unmarshalled-some, required-some, world_read, some_or_throw-some,
  lock_free,
}
use gumble.Client.Consistent.{SameGraph-Consistent, set_user-SameGraph}
use gumble.Client.Sound.{
  IsIdle, Ends, unmarshalled-Ends, required-Ends, some_or_throw-Ends, world-Ends, lock-Ends,
  set_world-Ends, unlock-Ends, emit_last-Ends,
}
use gumble.Client.Stats.{StatsPacket, UserStatsPacket, from_server_of, handle_user_stats}

from_server_of-Ends {κ μ} :
    {B : Type κ} {Q : B → Client → Type μ} (o p : Option StatsPacket) (f : UserStatsUdp → M B)
    (c : Client)
    → (p ≢ none → o ≢ none)
    → ((s : UserStatsUdp) → Ends Q (f s c))
    → Ends Q ((from_server_of o p >>= f) c)
unfolding ◌>>=◌ from_server_of pure
from_server_of-Ends o none f c h k = k _
from_server_of-Ends none (some s) f c h k = absurd (h (λ e. cc) refl)
from_server_of-Ends (some o) (some s) f c h k = k _

-- On an idle client handleUserStats returns or gives an error, it neither panics nor blocks, and the
-- client is idle again, if a packet with FromServer has FromClient too.
pub handle_user_stats-Ends :
    (parse : Bytes → Option ℕ) (ago : ℕ → ℕ) (unmarshal : Bytes → Option UserStatsPacket)
    (buffer : Bytes) (c : Client)
    → IsIdle c
    → ((p : UserStatsPacket)
        → unmarshal buffer ≡ some p
        → p.from_server ≢ none
        → p.from_client ≢ none)
    → Ends (λ _ d. IsIdle d) (handle_user_stats parse ago unmarshal buffer c)
unfolding handle_user_stats
handle_user_stats-Ends parse ago unmarshal buffer c i both =
    unmarshalled-Ends unmarshal buffer _ c i λ p e. required-Ends p.session _ c i λ s _.
      world-Ends _ c (
        some_or_throw-Ends _ (Map.get c.world.users s) _ c i λ u _. lock-Ends _ c i.free (
          from_server_of-Ends p.from_client p.from_server _ _ (both p e) λ f. set_world-Ends _ _ _ (
            unlock-Ends _ _ refl (
              emit_last-Ends _ _ (record {
                free = refl;
                consistent =
                    SameGraph-Consistent (set_user-SameGraph c.world u _ refl refl) i.consistent;
              })))))

-- A packet about a known user with FromServer and without FromClient panics.
handle_user_stats_panics :
    (parse : Bytes → Option ℕ) (ago : ℕ → ℕ) (unmarshal : Bytes → Option UserStatsPacket)
    (buffer : Bytes) (c : Client) (p : UserStatsPacket) (s u : ℕ) (server : StatsPacket)
    → unmarshal buffer ≡ some p
    → p.session ≡ some s
    → Map.get c.world.users s ≡ some u
    → c.locked ≡ false
    → p.from_server ≡ some server
    → p.from_client ≡ none
    → handle_user_stats parse ago unmarshal buffer c ≡ panicked
unfolding handle_user_stats
handle_user_stats_panics parse ago unmarshal buffer c p s u server e es eu free ef ec =
    unmarshalled-some unmarshal buffer _ c e
    ∙ required-some p.session _ c es
    ∙ world_read _ c
    ∙ some_or_throw-some _ (Map.get c.world.users s) _ c eu
    ∙ lock_free _ c free
    ∙ unfold ◌>>=◌ from_server_of panic in rw (ef, ec)
