-- ===== src/User/Tests.antt =====
-- A command that fits into the buffer.
use nsjail.Common.{◌≡◌, [], ◌∷◌}
use nsjail.Common.Int.{pos}
use nsjail.Common.Text.{bytes}
use nsjail.User.{map_command}
use nsjail.User.Buffer.{map_command-fitted, fitted, whole_command}
use nsjail.Conf.{Mapping}

abbrev mapping : Mapping
mapping = record { inside_id = bytes "1"; outside_id = bytes "100000"; count = bytes "5" }

map_command-fitted_example :
    map_command (bytes "/usr/bin/newuidmap") (pos 7) 0 1000 (mapping ∷ [])
    ≡ fitted 1024 (whole_command (bytes "/usr/bin/newuidmap") (pos 7) 0 1000 (mapping ∷ []))
map_command-fitted_example =
    map_command-fitted (bytes "/usr/bin/newuidmap") (pos 7) 0 1000 (mapping ∷ [])
