-- ===== src/Client/Sync/Tests.antt =====
-- The handshake at small clients.
use gumble.Prelude.{◌≡◌, refl, some, [], ◌∷◌}
use gumble.Client.{Client, connected}
use gumble.Client.Sound.{Ends}
use gumble.Client.Samples.{client_of, user_world, user_world-Consistent}
use gumble.Client.Sync.{ServerSync, handle_server_sync}
use gumble.Client.Sync.Safety.{IsSynced, handle_server_sync-Ends}

abbrev greeting : ServerSync
greeting = record { session = some 5; welcome_text = some (b'h' ∷ []); max_bandwidth = some 72000 }

abbrev dialing : Client
dialing = record (client_of user_world) { state = connected }

handle_server_sync-Ends_example :
    Ends
      (λ _ d. (p : ServerSync) × (some greeting ≡ some p) × IsSynced p dialing d)
      (handle_server_sync (λ _. some greeting) [] dialing)
handle_server_sync-Ends_example =
    handle_server_sync-Ends (λ _. some greeting) [] dialing
      (record { free = refl; consistent = user_world-Consistent }) refl
