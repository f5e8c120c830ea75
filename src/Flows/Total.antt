-- ===== src/Flows/Total.antt =====
-- `flash` over the client ends with a result.
use open_boot.Proto.Crc32.{Crc32}
use open_boot.Bundle.Source.{Source}
use open_boot.Transport.{Transport}
use open_boot.Client
use open_boot.Client.{Client, RetryPolicy, max_attempts}

module _ (crc : Crc32) (t : Transport) where
  abbrev three : RetryPolicy
  three = RetryPolicy.retry max_attempts
