-- ===== src/Dial/Fresh.antt =====
-- A new client waits for the handshake, and lives as readRoutine has it.
use gumble.Prelude.{refl, none-some}
use gumble.Map
use gumble.Client.Consistent.{Consistent}
use gumble.Client.Session.Handshake.{IsDialing}
use gumble.Dial.{new_client, empty_world}

empty_world-Consistent : Consistent empty_world
unfolding Map.get
empty_world-Consistent = record {
  user_keys = λ s u h. absurd (none-some _ h);
  channel_keys = λ i c h. absurd (none-some _ h);
  located = λ s u c h k. absurd (none-some _ h);
  members = λ c s u h k. absurd (none-some _ k);
  parents = λ i c p h k. absurd (none-some _ h);
  children = λ p i c h k. absurd (none-some _ k);
}

pub new_client-IsDialing : IsDialing new_client
unfolding new_client
new_client-IsDialing = record {
  idle = record { free = refl; consistent = empty_world-Consistent };
  state = refl;
  dial = refl;
  connect_open = refl;
  end_open = refl;
}
