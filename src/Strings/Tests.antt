-- ===== src/Strings/Tests.antt =====
-- The theorems of os/kernel/utilities/strings/strings.c at small strings.
