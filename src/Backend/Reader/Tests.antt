-- ===== src/Backend/Reader/Tests.antt =====
-- The read thread over a device that is removed in the middle of a read.
use xcom_lua.Prelude.{◌≡◌, refl, true, false, [], ◌∷◌, List}
use xcom_lua.Backend.Reader.{Reading, complete, reap_failed, Reader, read_loop}
use xcom_lua.Backend.Reader.Deliveries.{moved_in, device_failed_in, IsRead, read_loop-IsRead}

abbrev readings : List Reading
readings = complete (1 ∷ 2 ∷ []) ∷ reap_failed (3 ∷ []) 1617 false ∷ complete (4 ∷ []) ∷ []

abbrev thread : Reader
thread = record { opened = true; calls = [] }

read_loop-IsRead_example :
    IsRead (moved_in readings) (device_failed_in readings) thread (read_loop readings thread)
read_loop-IsRead_example = read_loop-IsRead readings thread

bytes_before_fault : moved_in readings ≡ 1 ∷ 2 ∷ 3 ∷ []
bytes_before_fault = refl
