-- ===== src/Tests/Requests.antt =====
-- src/http.c: what a connection reads.
use camlite.Base.{◌≡◌, ◌++◌, refl, [], ◌∷◌, Text, codes, arith}
use camlite.Http.{Request, empty_request}
use camlite.Http.Parse.{parse_line, IsRequest, parse_line-IsRequest}
use camlite.Http.Parse.RoundTrip.{IsPath, IsParam, parse_line-request_line, parse_line-empty_query}
use camlite.Http.Read.{scan}
use camlite.Http.Read.Lines.{left_by_scan, left_by_feed, remains, whole, feed, scan-feed}
use camlite.Http.Read.Chunks.{scan-append}
use camlite.Pevent.{ok}
use camlite.Libc.{is_space, sscanf}
use camlite.Tests.Sample.{request_text}

-- The request breaks off between CR and LF.
abbrev first_part : Text
first_part = codes "GET /stream?0 HTTP/1.1" ++ (13 ∷ [])

abbrev second_part : Text
second_part = 10 ∷ 13 ∷ 10 ∷ []

scan-append_example :
    ((r' : Request) (rest : Text)
      → left_by_scan (scan first_part empty_request) ≡ remains r' rest
      → left_by_scan (scan (rest ++ second_part) r')
        ≡ left_by_scan (scan request_text empty_request))
    × ((r' : Request)
        → left_by_scan (scan first_part empty_request) ≡ whole r'
        → left_by_scan (scan request_text empty_request) ≡ whole r')
scan-append_example = scan-append first_part second_part empty_request

scan-feed_example :
    left_by_scan (scan request_text empty_request)
    ≡ left_by_feed (feed empty_request [] request_text)
scan-feed_example = scan-feed request_text empty_request

abbrev stream_path : Text
stream_path = codes "/stream"

stream_path-IsPath : IsPath stream_path
unfolding is_space
stream_path-IsPath = record {
  head = b'/';
  tail = codes "stream";
  whole = refl;
  starts = refl;
  clean = (refl, (refl, (refl, (refl, (refl, (refl, (refl, tt)))))));
  fits = omega arith;
}

device-IsParam : IsParam (codes "0")
unfolding is_space
device-IsParam = record {
  head = b'0';
  tail = [];
  whole = refl;
  clean = (refl, tt);
  fits = omega arith;
}

parse_line-request_line_example :
    (parse_line empty_request
        (codes "GET " ++ (stream_path ++ (b'?' ∷ (codes "0" ++ codes " HTTP/1.1"))))
      ≡ (ok, record empty_request { method = 1; path = stream_path; param = codes "0" }))
    × (parse_line empty_request (codes "GET " ++ (stream_path ++ codes " HTTP/1.1"))
        ≡ (ok, record empty_request { method = 1; path = stream_path }))
parse_line-request_line_example =
    parse_line-request_line empty_request stream_path (codes "0") stream_path-IsPath device-IsParam

parse_line-empty_query_example :
    parse_line empty_request (codes "GET " ++ (stream_path ++ codes "? HTTP/1.1"))
    ≡ (ok, record empty_request { method = 1; path = stream_path; param = codes "HTTP/1.1" })
parse_line-empty_query_example = parse_line-empty_query empty_request stream_path stream_path-IsPath

empty_request-IsRequest : IsRequest empty_request
empty_request-IsRequest = record {
  path_fits = omega arith;
  param_fits = omega arith;
  host_fits = omega arith;
  digest_fits = omega arith;
}

parse_line-IsRequest_example : IsRequest (parse_line empty_request first_part).1
parse_line-IsRequest_example = parse_line-IsRequest empty_request first_part empty_request-IsRequest

host_line : (parse_line empty_request (codes "Host: cam.local")).1.host ≡ codes "cam.local"
unfolding parse_line sscanf
host_line = refl
