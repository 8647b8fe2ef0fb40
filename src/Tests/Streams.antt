-- ===== src/Tests/Streams.antt =====
-- src/http.c: what a connection sends.
use camlite.Base.{◌≡◌, ◌++◌, refl, [], ◌∷◌, Text, codes, take}
use camlite.Http.Send.{send, on_write}
use camlite.Http.Send.Connection.{Outcome}
use camlite.Http.Send.Stream.{send-Outcome}
use camlite.Http.Send.Drain.{Returned, on_write-Returned}
use camlite.Http.Response.{compile, compose, crlf}
use camlite.Http.Response.Codes.{get_http_code_string}
use camlite.Libc.{decimal}
use camlite.Http.Response.Delivery.{compile-Outcome}
use camlite.Http.Response.Head.{compose-layout, layout}
use camlite.Tests.Sample.{
  slow_kernel, slow_kernel-IsPosix, start_log, client, client-IsClient, greeting, busy_client,
  write_log, busy_client-IsClient,
}

abbrev hello : Text
hello = codes "hello, camera"

send-Outcome_example : Outcome ([] ++ ([] ++ hello)) 3 5 (send slow_kernel client hello start_log)
send-Outcome_example =
    send-Outcome slow_kernel client hello start_log slow_kernel-IsPosix client-IsClient

on_write-Returned_example :
    Returned ([] ++ (3 ∷ 4 ∷ 5 ∷ 6 ∷ 7 ∷ 8 ∷ [])) 3 5 (on_write slow_kernel busy_client write_log)
on_write-Returned_example =
    on_write-Returned slow_kernel busy_client write_log slow_kernel-IsPosix busy_client-IsClient

compile-Outcome_example :
    Outcome
      ([] ++ ([] ++ compose greeting) ++ (1 ∷ 2 ∷ []))
      3
      5
      (compile slow_kernel greeting client start_log)
compile-Outcome_example =
    compile-Outcome slow_kernel greeting client start_log slow_kernel-IsPosix client-IsClient

compose-layout_example : compose greeting ≡ take 2047 (layout greeting)
compose-layout_example = compose-layout greeting

greeting_composed :
    compose greeting
    ≡ codes "HTTP/1.1 200 OK"
      ++ crlf
      ++ codes "Content-type: text/html"
      ++ crlf
      ++ codes "Connection: close"
      ++ crlf
      ++ crlf
      ++ codes "hello"
unfolding compose get_http_code_string decimal
greeting_composed = refl
