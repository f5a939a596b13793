-- ===== src/Server/FileServer/Path/Tests.antt =====
-- Runs of the path functions.
use file_web_server.Server.FileServer.Path.Fuel.{resolve_enough}
use file_web_server.Base.{
  find, starts_with, true, ◌≡◌, ◌≢◌, refl, arith, [], codes, equal, find_byte,
}
use file_web_server.Server.FileServer.Path.Safety.{IsSafe, normalize-IsSafe}
use file_web_server.Server.FileServer.Path.{
  is_within_root, normalize, out_of_fuel, url_decode, hex_digit, resolve, skip_slashes,
  split_segment, push_segment,
}

dots : normalize (codes "/a/./b/../c%20d") ≡ codes "/a/c d"
unfolding normalize url_decode hex_digit resolve skip_slashes split_segment push_segment find_byte
    equal
dots = refl

up : normalize (codes "/a/../../b") ≡ []
unfolding normalize url_decode hex_digit resolve skip_slashes split_segment push_segment find_byte
    equal
up = refl

normalize-IsSafe_example : IsSafe (normalize (codes "/a/../b"))
unfolding normalize url_decode hex_digit resolve skip_slashes split_segment push_segment find_byte
    equal
normalize-IsSafe_example = normalize-IsSafe (codes "/a/../b") (λ e. ground arith)

inside : is_within_root (codes "/srv/a") (codes "/srv") ≡ true
unfolding is_within_root find starts_with
inside = refl

resolve_enough_example : resolve 6 (codes "/a/./b") [] ≢ out_of_fuel
resolve_enough_example = resolve_enough 6 (codes "/a/./b") [] (omega arith)
