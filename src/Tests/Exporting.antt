-- ===== src/Tests/Exporting.antt =====
-- Runs of the export service over the cluster in memory.
use dsh_api.Prelude.{
  map, codes, ◌-◌, ◌&&◌, eqb, Bool, ◌/◌, ◌+◌, ◌<◌, ◌≡◌, String, true, false, refl, none, some, [],
  ◌∷◌, ◌++◌, ◌⊎◌, any, count_by, arith, ◌^◌, ◌≤◌,
}
use dsh_api.Prelude.Chars.{chars, text as text_of, is_digit}
use dsh_api.Prelude.Dict.{get}
use dsh_api.Prelude.Json.{Json, text, object, no_fields, field}
use dsh_api.Action.{Error, Result, ok, err}
use dsh_api.Db.Rows.{micros, ExportRow, ExportStatus, is_active}
use dsh_api.Db.Exports.{get_export, queued_export}
use dsh_api.Cluster.Memory.{Fake}
use dsh_api.Cluster.Fake.{fake_backend}
use dsh_api.Cluster.Varint.{read_varint, varint, packet, ping_reply}
use dsh_api.Cluster.Ping.{read_varint-varint, ping_reply-packet, read_varint-bounds}
use dsh_api.Export.Exporter.{is_export_id, Exporter, is_preview_name, view}
use dsh_api.Export.Requests.{delete, preview_file, is_done, has_file, path_in, start_reserved}
use dsh_api.Export.Run.{run}
use dsh_api.Export.Settles.{IsEnded, run_settles}
use dsh_api.Export.Sweep.{is_swept, sweep, recover_interrupted}
use dsh_api.Export.Sweeping.{swept, sweep-swept}
use dsh_api.Export.Interrupted.{recover_interrupted_ends}
use dsh_api.Export.Owned.{IsOwned, removed, delete_own, preview_file_own}
use dsh_api.Export.Starting.{started, new_export, IsBlocked, IsFree, start_reserved-outcome}
use dsh_api.Export.Base64.{Bytes, nth}
use dsh_api.Export.Links.{LinkCodec, Token, download}
use dsh_api.Export.Downloads.{IsServed, IsRead, served_file, download_checked}
use dsh_api.Tests.Samples.{settings, one_ready}

abbrev waiting : ExportRow
waiting = queued_export "0123456789ab" "alpha" "ann" none 9000

abbrev pub finished : ExportRow
finished = record (queued_export "ba9876543210" "alpha" "ann" none 8000) {
  status = ExportStatus.ready;
  finished_at = some 8100;
  expires_at = some 267300;
}

abbrev pub exporter : Exporter Fake
exporter = record {
  world = record one_ready { db = record one_ready.db { exports = waiting ∷ finished ∷ [] } };
  dirs =
      record {
        server = "alpha";
        id = "ba9876543210";
        files = ("world.zip", "zip") ∷ ("preview/index.json", "{}") ∷ [];
      }
      ∷ record { server = "alpha"; id = "stray"; files = [] }
      ∷ [];
  staging = [];
  runs = [];
  last_sweep = none;
}

-- Stands for `json.loads`.
abbrev loads : String → Result Json
loads s = ok (object (field "snapshot" (text "at_rest") no_fields))

run_settles_example :
    IsEnded settings fake_backend loads waiting
      (run settings fake_backend loads (λ db. db) "0123456789ab" exporter)
unfolding get_export
run_settles_example =
    run_settles settings fake_backend loads (λ db. db) "0123456789ab" waiting exporter refl refl

sweep-swept_example : sweep exporter ≡ (
  ok (count_by (is_swept exporter.world.now exporter.world.db) exporter.world.db.exports),
  swept exporter,
)
sweep-swept_example = sweep-swept exporter (refl, (refl, tt))

recover_interrupted_ends_example :
    any
      (λ e. is_active e.status)
      (recover_interrupted settings fake_backend exporter).1.world.db.exports
    ≡ false
recover_interrupted_ends_example = recover_interrupted_ends settings fake_backend exporter

delete_own_example :
    ((e : Error) × (delete settings fake_backend "ann" "alpha" "ba9876543210" exporter
        ≡ (err e, exporter)))
    ⊎ ((row : ExportRow) × (delete settings fake_backend "ann" "alpha" "ba9876543210" exporter
          ≡ (ok tt, removed settings fake_backend row exporter))
        × IsOwned "ann" "alpha" "ba9876543210" exporter row
        × (is_active row.status ≡ false))
delete_own_example = delete_own settings fake_backend "ann" "alpha" "ba9876543210" exporter

preview_file_own_example :
    ((e : Error) × (preview_file settings fake_backend is_digit "ann" "alpha" "ba9876543210"
          "index.json" exporter
        ≡ (err e, exporter)))
    ⊎ ((row : ExportRow) × (preview_file settings fake_backend is_digit "ann" "alpha" "ba9876543210"
            "index.json" exporter
          ≡ (
            ok (path_in settings fake_backend "alpha" "ba9876543210" "preview/index.json"),
            exporter,
          ))
        × IsOwned "ann" "alpha" "ba9876543210" exporter row
        × (is_done row.status ≡ true)
        × (is_preview_name is_digit "index.json" ≡ true)
        × (has_file settings fake_backend "alpha" "ba9876543210" "preview/index.json" exporter.dirs
            ≡ true))
preview_file_own_example =
    preview_file_own settings fake_backend is_digit "ann" "alpha" "ba9876543210" "index.json"
      exporter

start_reserved-outcome_example :
    (((e : Error) × (start_reserved settings fake_backend "ann" "beta" "abcdefabcdef" none exporter
          ≡ (err e, exporter)))
      × IsBlocked settings fake_backend "ann" "beta" "abcdefabcdef" exporter)
    ⊎ (IsFree settings fake_backend "ann" "beta" "abcdefabcdef" exporter
        × (start_reserved settings fake_backend "ann" "beta" "abcdefabcdef" none exporter ≡ (
          ok (view (new_export "abcdefabcdef" "beta" "ann" none (exporter.world.now / micros))),
          started settings fake_backend "ann" "beta" "abcdefabcdef" none exporter,
        )))
start_reserved-outcome_example =
    start_reserved-outcome settings fake_backend "ann" "beta" "abcdefabcdef" none exporter

read_varint-varint_example : read_varint (varint 300 ++ 7 ∷ []) ≡ ok (300, 7 ∷ [])
read_varint-varint_example = read_varint-varint 300 (7 ∷ []) (omega arith)

ping_reply-packet_example :
    ping_reply (packet 0 (varint 3 ++ (1 ∷ 2 ∷ 3 ∷ [])) ++ 9 ∷ []) ≡ ok (1 ∷ 2 ∷ 3 ∷ [])
unfolding varint
ping_reply-packet_example =
    ping_reply-packet 0 (1 ∷ 2 ∷ 3 ∷ []) (9 ∷ []) (omega arith) (omega arith)

read_varint-bounds_example : (300 < 2 ^ 42) × (3 ≤ 6 + 1)
unfolding read_varint
read_varint-bounds_example =
    read_varint-bounds (172 ∷ 2 ∷ 7 ∷ []) 300 (7 ∷ [])
      (omega arith, (omega arith, (omega arith, tt))) refl

abbrev printable : String
printable =
    " !\"#$%&'()*+,-./0123456789:;<=>?@ABCDEFGHIJKLMNOPQRSTUVWXYZ[\\]^_`abcdefghijklmnopqrstuvwxyz{|}~"

-- Stands for the coding of texts, on printable ASCII, and for hmac.
abbrev ascii : Bytes → String
ascii bs = text_of (map (λ b. nth (chars printable) (b - 32)) bs)

abbrev same_bytes : Bytes → Bytes → Bool
same_bytes [] [] = true
same_bytes (a ∷ xs) (b ∷ ys) = eqb a b && same_bytes xs ys
same_bytes _ _ = false

abbrev pub codec : LinkCodec
codec = record {
  encode = codes;
  decode = λ bs. some (ascii bs);
  mac = λ bs. 7 ∷ 250 ∷ bs;
  same = same_bytes;
}

pub finished-IsServed : IsServed settings fake_backend "alpha" "ba9876543210" exporter finished
unfolding is_export_id get_export get
finished-IsServed = record {
  looks_right = refl;
  in_table = refl;
  of_server = refl;
  done = refl;
  kept = refl;
  zip = refl;
}

download_checked_example :
    ((e : Error) × (download codec settings fake_backend "a.b" exporter ≡ (err e, exporter)))
    ⊎ ((t : Token) × (row : ExportRow) × (download codec settings fake_backend "a.b" exporter
          ≡ (ok (served_file settings fake_backend codec row), exporter))
        × IsRead settings fake_backend codec "a.b" exporter t
        × IsServed settings fake_backend t.server t.export_id exporter row)
download_checked_example = download_checked settings fake_backend codec "a.b" exporter
