-- ===== src/Validators/Basic.antt =====
-- basic_validator.cpp.
use fspserver.Base.{Text, Option, none, some, not, if◌then◌else◌}
use fspserver.Protocol.{Protocol, Message}

unfoldable pub validate : Protocol → Message → Option Text
validate p m =
    if not (m.have_header p.headers.command_id) then some p.responses.cmdid_hdr_required else none
