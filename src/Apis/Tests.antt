-- ===== src/Apis/Tests.antt =====
-- Runs of the locator of addresses and of a request to its web service, with numbers for the floating-point numbers.
use armiarma.Base.{ℕ, ◌≡◌, refl, ◌↔◌, Option, none, some, List, [], ◌∷◌, arith}
use armiarma.Base.Int.{pos}
use armiarma.Apis.Call.{
  HttpResponse, IpApiMsg, ApiResp, zero_msg, failed_call, call_ip_api, url_of, too_many_requests,
}
use armiarma.Apis.Call.Panics.{LacksHeader, call_ip_api-panics}
use armiarma.Apis.Locator.{
  IpLocator, Event, no_rows, row, new_ip_locator, locates, reads, sends, receives, responds, ticks,
  run, calling,
}
use armiarma.Apis.Locator.Order.{Extends, run-Extends}
use armiarma.Apis.Locator.Requests.{IsLocated, responses, kept, run-IsLocated}

abbrev no_message : List ℕ → Option (IpApiMsg ℕ)
no_message b = none

abbrev teapot : HttpResponse
teapot = record { status_code = 418; header = []; body = none }

abbrev always_teapot : List ℕ → Option HttpResponse
always_teapot url = some teapot

call_ip_api-panics_example :
    (call_ip_api 0 always_teapot no_message (pos 5) "10.0.0.1" ≡ none)
    ↔ ((r : HttpResponse) × (always_teapot (url_of "10.0.0.1") ≡ some r) × LacksHeader r)
call_ip_api-panics_example = call_ip_api-panics 0 always_teapot no_message (pos 5) "10.0.0.1"

abbrev too_many : ApiResp ℕ
too_many = failed_call 0 always_teapot no_message (pos 3) (pos 0) too_many_requests

abbrev found : ApiResp ℕ
found = record {
  ip_info = record { msg = zero_msg 0 always_teapot no_message; expiration_time = pos 9 };
  delay_time = pos 0;
  attempts_left = pos 7;
  err = none;
}

abbrev events : List (Event ℕ)
events =
    locates (pos 1) "1.1.1.1" no_rows
    ∷ locates (pos 1) "2.2.2.2" (row "2.2.2.2" (pos 0))
    ∷ reads
    ∷ sends
    ∷ receives
    ∷ responds (some too_many)
    ∷ ticks
    ∷ []

run-Extends_example : Extends new_ip_locator (run events new_ip_locator)
run-Extends_example = run-Extends events new_ip_locator

abbrev busy : IpLocator ℕ
busy = record (new_ip_locator) { phase = calling "1.1.1.1"; api_calls = 1 }

run-IsLocated_example :
    IsLocated "1.1.1.1"
      (kept found found.err)
      1
      busy
      (run (responses (too_many ∷ []) (responds (some found) ∷ ticks ∷ [])) busy)
run-IsLocated_example =
    run-IsLocated (too_many ∷ []) "1.1.1.1" found busy refl ((refl, (3, refl, omega arith)), tt)
      (λ e. cc) (0, refl, omega arith)
