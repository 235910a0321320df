-- ===== src/Verification/RegistryTests.antt =====
-- Requests to a concrete device, and the theorems at them.
use nheko_library.Base.{List, [], ◌∷◌, ◌≡◌, refl, some, false, arith}
use nheko_library.Base.StdMap.{lookup}
use nheko_library.Verification.Message.{Request}
use nheko_library.Verification.Manager.{Registry, Call, request, start, calls}
use nheko_library.Verification.Registered.{
  by_request, by_start, none_left, one_more, calls-keep, IsTimely,
}
use nheko_library.Verification.Tests.{bob, to_m1, request_from_alice, start_from}

abbrev timely : Request
timely = record request_from_alice { timestamp = some 1000 }

abbrev at_first : Registry
at_first = record {
  dv_list = [];
  is_initial_sync = false;
  next_handle = 0;
  awaited = [];
  shown = [];
  not_found = 0;
}

abbrev one_flow : Registry
one_flow = record at_first { dv_list = ("m1", 0) ∷ []; next_handle = 1 }

abbrev repeated : List Call
repeated = request 1000000 to_m1 timely "@alice" ∷ start to_m1 (start_from "A") "@eve" ∷ []

calls-keep_example : lookup "m1" (calls bob repeated one_flow).dv_list ≡ some 0
calls-keep_example =
    calls-keep bob repeated "m1" 0 one_flow
      (one_more _ _ (by_request 1000000 to_m1 timely "@alice")
        (one_more _ _ (by_start to_m1 (start_from "A") "@eve") none_left))
      refl

timely-IsTimely : IsTimely 1000000 to_m1 timely at_first
timely-IsTimely = record {
  synced = refl;
  milliseconds = 1000;
  has_time = refl;
  not_old = omega arith;
  not_ahead = omega arith;
  id = "m1";
  has_id = refl;
  is_new = refl;
}
