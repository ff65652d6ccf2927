-- ===== src/Examples/Logging.antt =====
-- The name of a source file of the kernel, which does not fit.
use sentinet_cpp.Common.{◌≡◌, refl, zeros}
use sentinet_cpp.Common.Decimal.{chars}
use sentinet_cpp.Logging.{char_at, file_name}
use sentinet_cpp.Logging.Names.{file_name-last}

file_name-last_example :
    ((file_name (chars "src/kernel/KermitNetworkInterface.cpp") zeros).1 ≡ 28)
    × ((file_name (chars "src/kernel/KermitNetworkInterface.cpp") zeros).0 20 ≡ b'a')
unfolding char_at
file_name-last_example =
    file_name-last (chars "src/kernel") (chars "KermitNetworkInterface.cpp") zeros 20 refl
