-- ===== src/Dispatch/Access.antt =====
-- The packages that `AbstractHost::processPackage` of daemon/src/abstract_host.cpp turns away.
use yonderboy.Prelude.{not, ◌&&◌, if◌then◌else◌, Option, none, some, Bytes}
use yonderboy.Prelude.Text.{codes}
use yonderboy.Macros.{connection_management, is_type, established, is_state}
use yonderboy.Package.{Package}
use yonderboy.AbstractHost.{Host, host_type}
use yonderboy.Server.{Server}
use yonderboy.CommandTable.{is_allowed}

-- The error that a package is refused with, if it is.
unfoldable pub refusal : Server → Host → Package → Option Bytes
refusal s h p =
    if not p.valid
    then some (codes "invalid")
    else if not (is_allowed s.package_router (host_type h) p)
    then some (codes "forbidden")
    else if not (is_type p.type connection_management) && not (is_state h.state established)
    then some (codes "invalid")
    else none
