-- ===== src/Ws/Origin/Tests.antt =====
-- A request from its own host, and the theorem there.
use go_webssh.Base.{◌≡◌, ◌↔◌, ◌⊎◌, true, some, [], Some}
use go_webssh.Text.{codes}
use go_webssh.Ws.Origin.{Request, check_origin}
use go_webssh.Ws.Origin.Laws.{check_origin_iff, IsOwn, Allows}

abbrev sample_request : Request
sample_request = record {
  host = codes "h:8080";
  origin = codes "https://h";
  forwarded_for = [];
  remote_addr = codes "1.2.3.4:5";
  remote_host = some (codes "1.2.3.4");
}

check_origin_iff_example : (check_origin [] sample_request ≡ true) ↔ (
    (codes "https://h" ≡ [])
    ⊎ IsOwn sample_request (codes "https://h")
    ⊎ Some (Allows (codes "https://h")) [])
check_origin_iff_example = check_origin_iff [] sample_request
