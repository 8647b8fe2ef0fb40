-- ===== src/Tests/Digests.antt =====
-- src/camhttp.c: the digest table
use camlite.Base.{◌≡◌, ◌≢◌, refl, true, none, some, List, [], ◌∷◌, ◌++◌, codes, arith, take, Text}
use camlite.Http.{Client}
use camlite.Camhttp.{hex2string}
use camlite.Libc.Numbers.{strtol_hex}
use camlite.Camhttp.Parameters.{HttpParameter, get_http_parameter}
use camlite.Camhttp.Digests.{
  Digest, Digests, Outside, on_check_digest, timenow, check_digest_expire, asked, expected, find,
  new_nonce,
}
use camlite.Camhttp.Digests.Table.{IsTable}
use camlite.Camhttp.Digests.Admission.{
  Checked, Answers, on_check_digest-Checked, on_check_digest-IsTable,
}
use camlite.Camhttp.Digests.Session.{AllPass, on_check_digest-AllPass}
use camlite.Camhttp.Digests.Replay.{checks, on_check_digest-once}
use camlite.Tests.Sample.{slow_kernel, client, start_log}

-- In place of MD5: the first 16 bytes of a text.
abbrev pub front : Outside
front = record { md5 = λ s. take 16 (s ++ codes "................"); inet_addr = λ _. 1 }

abbrev nonce : Text
nonce = codes "aaaaaaaaaaaaaaaaaaaaaaaaaaaaaaaa"

abbrev entry : Digest
entry = record { nonce = nonce; check_time = 90; ip = 1; count = 1 }

-- A login is set, and one nonce is in use.
abbrev table : Digests
table = record {
  ha1 = codes "00000000000000000000000000000000";
  list = entry ∷ [];
  digest_count = 1;
}

abbrev answering : Client
answering = record client {
  request = record {
    method = 1;
    path = codes "/";
    param = [];
    host = [];
    digest =
        codes
          "nonce=\"aaaaaaaaaaaaaaaaaaaaaaaaaaaaaaaa\", nc=00000001, cnonce=\"x\", response=\"3030303030303030\"";
  };
}

abbrev parameters : List HttpParameter
parameters =
    record { key = codes "nonce"; value = some nonce }
    ∷ record { key = codes "nc"; value = some (codes "00000001") }
    ∷ record { key = codes "cnonce"; value = some (codes "x") }
    ∷ record { key = codes "response"; value = some (codes "3030303030303030") }
    ∷ []

parsed : get_http_parameter answering.request.digest asked ≡ (true, parameters)
unfolding get_http_parameter
parsed = refl

answering-Answers : Answers slow_kernel front table.ha1 answering parameters
unfolding expected hex2string
answering-Answers = record { present = refl; parsed = parsed; right = refl }

table-IsTable : IsTable 0 table
unfolding find
table-IsTable = record { bounded = omega arith; distinct = (refl, tt); alive = (omega arith, tt) }

passes_run : (on_check_digest slow_kernel front table answering start_log).0 ≡ none
unfolding on_check_digest hex2string
passes_run = refl

on_check_digest-Checked_example :
    Checked slow_kernel front
      (check_digest_expire slow_kernel front table start_log)
      answering
      start_log
      (on_check_digest slow_kernel front table answering start_log)
on_check_digest-Checked_example =
    on_check_digest-Checked slow_kernel front table answering start_log

on_check_digest-IsTable_example :
    IsTable
      (timenow slow_kernel start_log)
      ((on_check_digest slow_kernel front table answering start_log).1)
on_check_digest-IsTable_example =
    on_check_digest-IsTable slow_kernel front table answering start_log 0 table-IsTable

-- The next request of the client, with the next count
abbrev going_on : Client
going_on = record client {
  request = record {
    method = 1;
    path = codes "/";
    param = [];
    host = [];
    digest =
        codes
          "nonce=\"aaaaaaaaaaaaaaaaaaaaaaaaaaaaaaaa\", nc=00000002, cnonce=\"x\", response=\"3030303030303030\"";
  };
}

abbrev next_parameters : List HttpParameter
next_parameters =
    record { key = codes "nonce"; value = some nonce }
    ∷ record { key = codes "nc"; value = some (codes "00000002") }
    ∷ record { key = codes "cnonce"; value = some (codes "x") }
    ∷ record { key = codes "response"; value = some (codes "3030303030303030") }
    ∷ []

next_parsed : get_http_parameter going_on.request.digest asked ≡ (true, next_parameters)
unfolding get_http_parameter
next_parsed = refl

going_on-Answers : Answers slow_kernel front table.ha1 going_on next_parameters
unfolding expected hex2string
going_on-Answers = record { present = refl; parsed = next_parsed; right = refl }

on_check_digest-AllPass_example :
    AllPass slow_kernel front table ((answering, start_log) ∷ (going_on, start_log) ∷ [])
unfolding find strtol_hex
on_check_digest-AllPass_example =
    on_check_digest-AllPass slow_kernel front ((answering, start_log) ∷ (going_on, start_log) ∷ [])
      table entry nonce refl refl refl
      (
        (parameters, answering-Answers, refl, refl),
        omega arith,
        ((next_parameters, going_on-Answers, refl, refl), omega arith, tt),
      )

-- The same header again, after a request without one.
on_check_digest-once_example :
    (on_check_digest slow_kernel front
      (checks slow_kernel front
        ((on_check_digest slow_kernel front table answering start_log).1)
        ((client, start_log) ∷ []))
      answering
      start_log).0
    ≢ none
unfolding new_nonce hex2string on_check_digest
on_check_digest-once_example =
    on_check_digest-once slow_kernel front table answering answering start_log start_log
      ((client, start_log) ∷ []) 0 table-IsTable refl passes_run refl (refl, tt)
