-- ===== src/Tests/Ring.antt =====
-- The ring rules between a driver, a service and an application.
use atarix.Prelude.{◌≡◌, ◌↔◌}
use atarix.Ring.{allow, ring_can_access, ring_driver, ring_application, operation_request}
use atarix.Ring.Access.{MayAccess, ring_can_access_iff}

ring_can_access_iff_example :
    (ring_can_access ring_driver ring_application operation_request ≡ allow)
    ↔ MayAccess ring_driver ring_application operation_request
ring_can_access_iff_example = ring_can_access_iff ring_driver ring_application operation_request
