-- ===== src/Memory/Region/Tests.antt =====
-- An annotation.
use yidika.Base.{◌≡◌, ◌≢◌, ◌↔◌, some, codes}
use yidika.Memory.Region.{stack, device, display, from_annotation, from_annotation-display}

from_annotation-display_example :
    (from_annotation (codes "device") ≡ some device)
    ↔ ((display device ≡ codes "device") × (device ≢ stack))
from_annotation-display_example = from_annotation-display (codes "device") device
