-- ===== src/Runtime/Poller/Tests.antt =====
-- The table of descriptors at concrete inputs.
use blue_bird.Prelude.{◌≡◌, refl, true, false, List, [], ◌∷◌, arith}
use blue_bird.Runtime.Poller.{
  Poller, find_from, find_fd, without, enter, grow_fds, room_for, poller_register,
  poller_unregister,
}
use blue_bird.Runtime.Poller.Masks.{IsTable, mask_of}
use blue_bird.Runtime.Poller.Refinement.{
  Request, register_fd, unregister_fd, serve_all, promised_all, serve_all-promised_all,
}

abbrev start : Poller
start = record { fds = []; capacity = 1 }

-- Descriptor 7 for reading and writing, 8 without memory and then with it, and 7 no more for reading.
abbrev requests : List Request
requests =
    register_fd true true true 7 1
    ∷ register_fd true true true 7 2
    ∷ register_fd true false true 8 1
    ∷ register_fd true true true 8 1
    ∷ unregister_fd 7 1
    ∷ []

serve_all-promised_all_example :
    IsTable (serve_all start requests).fds
    × (mask_of (serve_all start requests).fds ≡ promised_all start requests (mask_of start.fds))
serve_all-promised_all_example = serve_all-promised_all start requests (λ fd. omega arith)

served : serve_all start requests ≡ record {
  fds = record { fd = 7; events = 2 } ∷ record { fd = 8; events = 1 } ∷ [];
  capacity = 2;
}
unfolding poller_register poller_unregister find_fd find_from without enter room_for grow_fds
served = refl
