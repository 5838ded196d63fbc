-- ===== src/Client/Ping/Tests.antt =====
-- The first ping of a client.
use gumble.Prelude.{◌+◌, ◌-◌, ◌*◌, ◌/◌, ◌≡◌, refl, some, [], ◌∷◌, ◌++◌, arith}
use gumble.Client.{PingStats}
use gumble.Client.Monad.{returned}
use gumble.Client.Samples.{client_of, no_world}
use gumble.Client.Ping.{FloatOps, handle_ping}
use gumble.Client.Ping.Window.{IsWindow, window, mean, mean_square, handle_ping-IsWindow}

-- Whole numbers in place of float32.
abbrev whole : FloatOps
whole = record {
  add = λ x y. x + y;
  subtract = λ x y. x - y;
  multiply = λ x y. x * y;
  divide = λ x y. x / y;
  of_int = λ n. n;
}

no_pings-IsWindow : IsWindow [] (client_of no_world).ping
no_pings-IsWindow = record { received = refl; size = refl; seen = refl }

handle_ping-IsWindow_example :
    (s : PingStats) × (handle_ping whole
        (λ t. t + 1)
        (λ _. some (record { timestamp = some 6 }))
        []
        (client_of no_world)
      ≡ returned tt (record (client_of no_world) { ping = s }))
    × IsWindow ([] ++ (7 ∷ [])) s
    × (s.average ≡ mean whole (window ([] ++ (7 ∷ []))))
    × (s.variance ≡ mean_square whole s.average (window ([] ++ (7 ∷ []))))
handle_ping-IsWindow_example =
    handle_ping-IsWindow whole (λ t. t + 1) (λ _. some (record { timestamp = some 6 })) []
      (client_of no_world) (record { timestamp = some 6 }) 6 [] refl refl no_pings-IsWindow
      (omega arith)
