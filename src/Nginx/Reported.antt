-- ===== src/Nginx/Reported.antt =====
-- The collector of the public interfaces ends with a report.
use cozy_nm.Base.{Bool, true, false}
use cozy_nm.Nginx.Transmission.{Whole, overflow}

abbrev pub overflows : Whole → Bool
overflows overflow = true
overflows _ = false
