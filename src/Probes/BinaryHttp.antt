-- ===== src/Probes/BinaryHttp.antt =====
-- `LocalMtime` and `RemoteLastModified` of internal/binary/binary_http.go.
use vpub_exporter.Prelude.{not, ◌==◌, if◌then◌else◌}
use vpub_exporter.Text.{Bytes, codes, is_empty}
use vpub_exporter.Errors.{Result, ok, err, failure, ◌>>=◌}
use vpub_exporter.Clock.{Time}
use vpub_exporter.Probes.Http.{Response, status_ok}

-- LocalMtime, with os.Stat as a function of the path to the modification time
unfoldable pub local_mtime : (Bytes → Result Time) → Bytes → Result Time
local_mtime stat path = do mt ← stat path; ok mt

-- RemoteLastModified, by what Client.Do returns and by http.ParseTime
unfoldable pub remote_last_modified : (Bytes → Result Time) → Result Response → Result Time
remote_last_modified parse_time (err e) = err e
remote_last_modified parse_time (ok r) =
    if not (r.status_code == status_ok)
    then err (failure (codes "HEAD: status"))
    else if is_empty r.last_modified
    then err (failure (codes "HEAD: Last-Modified header missing"))
    else parse_time r.last_modified
