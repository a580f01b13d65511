-- ===== src/ChatRoom/Strings.antt =====
-- examples/chatroom/server/implementation.go: the constant strings, as their ASCII codes.
use webwire_go.Base.{[], ◌∷◌}
use webwire_go.Runtime.{Bytes}

-- "DECODING_FAILURE"
abbrev pub decoding_failure : Bytes
decoding_failure =
    68 ∷ 69 ∷ 67 ∷ 79 ∷ 68 ∷ 73 ∷ 78 ∷ 71 ∷ 95 ∷ 70 ∷ 65 ∷ 73 ∷ 76 ∷ 85 ∷ 82 ∷ 69 ∷ []

-- "Failed decoding message: %s"
abbrev pub decoding_format : Bytes
decoding_format =
    70 ∷ 97 ∷ 105 ∷ 108 ∷ 101 ∷ 100 ∷ 32 ∷ 100 ∷ 101 ∷ 99 ∷ 111 ∷ 100 ∷ 105 ∷ 110 ∷ 103 ∷ 32 ∷ 109
    ∷ 101 ∷ 115 ∷ 115 ∷ 97 ∷ 103 ∷ 101 ∷ 58 ∷ 32 ∷ 37 ∷ 115 ∷ []

-- "INEXISTENT_USER"
abbrev pub inexistent_user : Bytes
inexistent_user = 73 ∷ 78 ∷ 69 ∷ 88 ∷ 73 ∷ 83 ∷ 84 ∷ 69 ∷ 78 ∷ 84 ∷ 95 ∷ 85 ∷ 83 ∷ 69 ∷ 82 ∷ []

-- "No such user: '%s'"
abbrev pub inexistent_format : Bytes
inexistent_format =
    78 ∷ 111 ∷ 32 ∷ 115 ∷ 117 ∷ 99 ∷ 104 ∷ 32 ∷ 117 ∷ 115 ∷ 101 ∷ 114 ∷ 58 ∷ 32 ∷ 39 ∷ 37 ∷ 115 ∷ 39
    ∷ []

-- "WRONG_PASSWORD"
abbrev pub wrong_password : Bytes
wrong_password = 87 ∷ 82 ∷ 79 ∷ 78 ∷ 71 ∷ 95 ∷ 80 ∷ 65 ∷ 83 ∷ 83 ∷ 87 ∷ 79 ∷ 82 ∷ 68 ∷ []

-- "Provided password is wrong"
abbrev pub wrong_text : Bytes
wrong_text =
    80 ∷ 114 ∷ 111 ∷ 118 ∷ 105 ∷ 100 ∷ 101 ∷ 100 ∷ 32 ∷ 112 ∷ 97 ∷ 115 ∷ 115 ∷ 119 ∷ 111 ∷ 114 ∷ 100
    ∷ 32 ∷ 105 ∷ 115 ∷ 32 ∷ 119 ∷ 114 ∷ 111 ∷ 110 ∷ 103 ∷ []

-- "BAD_REQUEST"
abbrev pub bad_request : Bytes
bad_request = 66 ∷ 65 ∷ 68 ∷ 95 ∷ 82 ∷ 69 ∷ 81 ∷ 85 ∷ 69 ∷ 83 ∷ 84 ∷ []

-- "Unsupported request name: %s"
abbrev pub unsupported_format : Bytes
unsupported_format =
    85 ∷ 110 ∷ 115 ∷ 117 ∷ 112 ∷ 112 ∷ 111 ∷ 114 ∷ 116 ∷ 101 ∷ 100 ∷ 32 ∷ 114 ∷ 101 ∷ 113 ∷ 117
    ∷ 101 ∷ 115 ∷ 116 ∷ 32 ∷ 110 ∷ 97 ∷ 109 ∷ 101 ∷ 58 ∷ 32 ∷ 37 ∷ 115 ∷ []

-- "auth"
abbrev pub auth : Bytes
auth = 97 ∷ 117 ∷ 116 ∷ 104 ∷ []

-- "msg"
abbrev pub msg : Bytes
msg = 109 ∷ 115 ∷ 103 ∷ []

-- "Anonymous"
abbrev pub anonymous : Bytes
anonymous = 65 ∷ 110 ∷ 111 ∷ 110 ∷ 121 ∷ 109 ∷ 111 ∷ 117 ∷ 115 ∷ []
