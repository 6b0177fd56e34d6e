-- ===== src/CheckUpdate/Formats.antt =====
-- The target of a TCP check, `isValidTcpTarget` of api/src/checks/check-update.ts.
use systemvitals.Base.{suc, Bool, false, ◌&&◌, not, none, some, leb}
use systemvitals.Base.Text.{
  Text, drop, codes, includes, last_index_of, all_digits, number_from, truthy,
}

-- The port after the last colon: digits, from 1 to 65535.
unfoldable pub is_valid_port : Text → Bool
unfolding number_from
is_valid_port s = truthy s && all_digits s && leb 1 (number_from 0 s) && leb (number_from 0 s) 65535

unfoldable pub is_valid_tcp_target : Text → Bool
unfolding is_valid_port
is_valid_tcp_target target =
    not (includes target (codes "://")) && elim (last_index_of b':' target) [
      | none ↦ false
      | some i ↦ leb 1 i && is_valid_port (drop (suc i) target)
    ]
